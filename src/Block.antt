-- ===== src/Block.antt =====
-- rds_encoder.c and rds_encoder.h: `struct rds_block`, the offset words, the generator matrix and
-- `rds_generate_block`, which appends the checkword to a 16-bit infoword.
pub mod Crc
pub mod Linear
pub mod Checkword
pub mod Errors
use jmpxrds.Base.{
  ℕ, zero, suc, ◌^◌, ◌%◌, ◌*◌, bit_and, bit_or, bit_xor, Bool, List, [], ◌∷◌, get_or, ◌==◌,
  if◌then◌else◌, ◌<<<◌,
}

-- `offset_word` and `checkword` are bit-fields of 10 bits.
pub record Block : Type 0 where
  pub infoword : ℕ
  pub offset_word : ℕ
  pub checkword : ℕ

-- An assignment to a bit-field of 10 bits.
abbrev pub u10 : ℕ → ℕ
u10 n = n % 2 ^ 10

abbrev pub infoword_size_bits : ℕ
infoword_size_bits = 16

abbrev pub block_size_bits : ℕ
block_size_bits = 26

-- A, B, C, D and C'.
abbrev pub offset_words : List ℕ
offset_words = 0x0FC ∷ 0x198 ∷ 0x168 ∷ 0x1B4 ∷ 0x350 ∷ []

abbrev pub alt_offset_word_c_idx : ℕ
alt_offset_word_c_idx = 4

-- The array `G`.
abbrev pub matrix : List ℕ
matrix =
    0x1B9 ∷ 0x372 ∷ 0x35D ∷ 0x303 ∷ 0x3BF ∷ 0x2C7 ∷ 0x037 ∷ 0x06E ∷ 0x0DC ∷ 0x1B8 ∷ 0x370 ∷ 0x359
    ∷ 0x30B ∷ 0x3AF ∷ 0x2E7 ∷ 0x077 ∷ []

-- The loop over the bits of the infoword, from bit `n - 1` down; the result is `checkword`.
pub crc_loop : ℕ → ℕ → ℕ → ℕ
crc_loop zero word check = check
crc_loop (suc i) word check =
    crc_loop i word
      (if bit_and word (1 <<< i) == 0 then check else u10 (bit_xor check (get_or matrix i 0)))

-- The stored checkword, which the function updates in place.
unfoldable pub with_checkword : Block → Block
unfolding crc_loop
with_checkword b = record b {
  checkword = u10 (bit_xor (crc_loop infoword_size_bits b.infoword b.checkword) b.offset_word);
}

-- The word that is sent.
unfoldable pub generate_block : Block → ℕ
unfolding with_checkword
generate_block b = bit_or (with_checkword b).checkword (b.infoword <<< 10)
