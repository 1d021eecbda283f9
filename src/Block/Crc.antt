-- ===== src/Block/Crc.antt =====
-- An independent description of the code: long division of a received word, highest bit first, by
-- g(x) = x^10 + x^8 + x^7 + x^5 + x^4 + x^3 + 1.
use jmpxrds.Base.{ℕ, zero, suc, ◌+◌, ◌*◌, bit_xor, leb, if◌then◌else◌, digit}

abbrev pub generator : ℕ
generator = 0x5B9

-- Bring down one digit, and subtract the divisor where it fits.
unfoldable pub shift_in : ℕ → ℕ → ℕ
shift_in r b = let s = r * 2 + b in if leb 1024 s then bit_xor s generator else s

-- The remainder once the digits below `k` of `w` are brought down.
unfoldable pub divide : ℕ → ℕ → ℕ → ℕ
divide zero w r = r
divide (suc k) w r = divide k w (shift_in r (digit k w))

-- What a receiver computes of 26 bits.
unfoldable pub syndrome : ℕ → ℕ
unfolding divide shift_in
syndrome w = divide 26 w 0
