-- ===== src/Rtp/Blocksize.antt =====
-- rtp_server.c: `rtp_get_flac_blocksize`.
use jmpxrds.Base.{ℕ, zero, suc, ◌+◌, ◌-◌, ◌*◌, ◌/◌, ◌%◌, ◌^◌, ltb, if◌then◌else◌}
use jmpxrds.Base.Int.{ℤ, pos, negsuc, minus, leb_ℤ}

-- A number as an `int` of 32 bits in two's complement.
abbrev pub as_int : ℕ → ℤ
as_int n = if ltb (n % 2 ^ 32) (2 ^ 31) then pos (n % 2 ^ 32) else minus (2 ^ 32 - n % 2 ^ 32)

-- The division of C, which rounds towards 0.
abbrev pub div_int : ℤ → ℕ → ℤ
div_int (pos a) b = pos (a / b)
div_int (negsuc a) b = minus (suc a / b)

abbrev pub target : ℕ → ℤ
target samplerate = div_int (as_int (samplerate * 105)) 1000

-- The passes from `i` on, `left` of them.
unfoldable pub blocksize_loop : ℕ → ℕ → ℤ → ℕ → ℕ
blocksize_loop zero i t block_size = block_size
blocksize_loop (suc left) i t block_size =
    let tmp = 256 * 2 ^ i in
    blocksize_loop left (i + 1) t (if leb_ℤ (pos tmp) t then tmp else block_size)

unfoldable pub rtp_get_flac_blocksize : ℕ → ℕ
unfolding blocksize_loop
rtp_get_flac_blocksize samplerate = blocksize_loop 16 0 (target samplerate) 0
