-- ===== src/Block/Checkword.antt =====
-- `rds_generate_block` against long division.
use jmpxrds.Base.{
  ℕ, zero, suc, ◌+◌, ◌*◌, ◌/◌, ◌%◌, ◌^◌, ◌≤◌, ◌<◌, bit_and, bit_xor, true, ◌==◌, ==_iff,
  if◌then◌else◌, digit, digit-lt, get_or, ◌≡◌, refl, sym, ap, ap₂, ◌∙◌, arith, bit_and_bit,
  bit_or_fields', bit_xor_fields, mod_high_digit, ◌<<<◌, all_below, all_below_sound, ltb, ltb→lt,
  ◌⊎◌, inl, inr,
}
use native.Mathlib.Nat.{one-le-pow, mod-lt, mod-eq_of_lt}
use jmpxrds.Base.Xor.{zero-xor, xor-shift, xor-lt, xor_assoc, xor_comm, xor_cancel}
use jmpxrds.Block.{Block, matrix, u10, crc_loop, with_checkword, generate_block}
use jmpxrds.Block.Crc.{syndrome}
use jmpxrds.Block.Linear.{syndrome-xor}

-- Row `i` of the matrix is the remainder of x^(i + 10).
matrix_table : all_below 16 (λ i. syndrome (2 ^ i * 1024) == get_or matrix i 0) ≡ true
unfolding all_below syndrome
matrix_table = refl

syndrome-row : (i : ℕ) → i < 16 → syndrome (2 ^ i * 1024) ≡ get_or matrix i 0
syndrome-row i h = (==_iff _ _).0 (all_below_sound 16 _ i matrix_table h)

matrix_lt_table : all_below 16 (λ i. ltb (get_or matrix i 0) 1024) ≡ true
unfolding all_below
matrix_lt_table = refl

matrix-lt : (i : ℕ) → i < 16 → get_or matrix i 0 < 1024
matrix-lt i h = ltb→lt _ _ (all_below_sound 16 _ i matrix_lt_table h)

-- A word of ten digits is its own remainder.
short_table : all_below 1024 (λ c. syndrome c == c) ≡ true
unfolding all_below syndrome
short_table = refl

pub syndrome_short : (c : ℕ) → c < 1024 → syndrome c ≡ c
syndrome_short c h = (==_iff _ _).0 (all_below_sound 1024 _ c short_table h)

-- What the loop does at one bit.
abbrev at_bit : ℕ → ℕ → ℕ → ℕ
at_bit i w c = if bit_and w (1 <<< i) == 0 then c else u10 (bit_xor c (get_or matrix i 0))

at_bit-zero : (i w c : ℕ) → digit i w ≡ 0 → at_bit i w c ≡ c
at_bit-zero i w c h = ground (arith, bit_and_bit i w, ap (λ (t : ℕ). t * 2 ^ i) h)

at_bit-one :
    (i w c : ℕ) → i < 16 → c < 1024 → digit i w ≡ 1 → at_bit i w c ≡ bit_xor c (get_or matrix i 0)
at_bit-one i w c h g e = ground (
  arith,
  bit_and_bit i w,
  ap (λ (t : ℕ). t * 2 ^ i) e,
  one-le-pow i 2,
  xor-lt 10 c (get_or matrix i 0) g (matrix-lt i h),
)

digit-cases : (i w : ℕ) → (digit i w ≡ 0) ⊎ (digit i w ≡ 1)
digit-cases i w = omega (arith, digit-lt i w)

at_bit-lt : (i w c : ℕ) → i < 16 → c < 1024 → at_bit i w c < 1024
at_bit-lt i w c h g = elim (digit-cases i w) [
  | inl e ↦ rw (at_bit-zero i w c e) g
  | inr e ↦ rw (at_bit-one i w c h g e) (xor-lt 10 c (get_or matrix i 0) g (matrix-lt i h))
]

pub crc_loop-lt : (n w c : ℕ) → n ≤ 16 → c < 1024 → crc_loop n w c < 1024
unfolding crc_loop
crc_loop-lt zero w c h g = g
crc_loop-lt (suc i) w c h g = crc_loop-lt i w _ (omega arith) (at_bit-lt i w c h g)

-- A set digit splits off as a sum of disjoint words.
split_digit :
    (i w : ℕ) → digit i w ≡ 1 → w % 2 ^ suc i * 1024 ≡ bit_xor (2 ^ i * 1024) (w % 2 ^ i * 1024)
split_digit i w e =
    let sum : w % 2 ^ suc i ≡ bit_xor (1 * 2 ^ i) (w % 2 ^ i) = omega (
      arith,
      mod_high_digit i w,
      ap (λ (t : ℕ). t * 2 ^ i) e,
      bit_xor_fields i 1 (w % 2 ^ i) (mod-lt w (one-le-pow i 2 (omega arith))),
    ) in
    ap (λ (t : ℕ). t * 1024) sum
    ∙ sym (xor-shift 10 (1 * 2 ^ i) (w % 2 ^ i))
    ∙ ap (λ (t : ℕ). bit_xor (t * 1024) (w % 2 ^ i * 1024)) (omega arith)

-- A row of the matrix that the loop added is cancelled by the digit that it stands for.
cancel_row :
    (i c rest : ℕ)
    → i < 16
    → syndrome rest ≡ bit_xor c (get_or matrix i 0)
    → syndrome (bit_xor (2 ^ i * 1024) rest) ≡ c
cancel_row i c rest h e =
    syndrome-xor (2 ^ i * 1024) rest
    ∙ ap₂ bit_xor (syndrome-row i h) e
    ∙ ap (bit_xor (get_or matrix i 0)) (xor_comm c (get_or matrix i 0))
    ∙ xor_cancel (get_or matrix i 0) c

-- The loop turns the stored checkword into one that makes the syndrome of the block the same.
crc_loop_lem :
    (n w c : ℕ) → n ≤ 16 → c < 1024 → syndrome (bit_xor (w % 2 ^ n * 1024) (crc_loop n w c)) ≡ c
unfolding crc_loop
crc_loop_lem zero w c h g =
    ap (λ (t : ℕ). syndrome (bit_xor (t * 1024) c)) {x = w % 1} {y = 0} (omega arith)
    ∙ ap syndrome (zero-xor c)
    ∙ syndrome_short c g
crc_loop_lem (suc i) w c h g = elim (digit-cases i w) [
  | inl e ↦ rw (at_bit-zero i w c e, same e) (crc_loop_lem i w c (omega arith) g)
  | inr e ↦
      rw (at_bit-one i w c (omega arith) g e, split_digit i w e, xor_assoc)
        (cancel_row i c _ (omega arith) (
          crc_loop_lem i w _ (omega arith)
            (xor-lt 10 c (get_or matrix i 0) g (matrix-lt i (omega arith)))))
]
  where
    same : digit i w ≡ 0 → w % 2 ^ suc i ≡ w % 2 ^ i
    same e = omega (arith, mod_high_digit i w, ap (λ (t : ℕ). t * 2 ^ i) e)

pub record IsBlock (b : Block) : Type 0 where
  pub info_fits : b.infoword < 2 ^ 16
  pub offset_fits : b.offset_word < 1024
  pub check_fits : b.checkword < 1024

pub with_checkword-eq :
    (b : Block)
    → IsBlock b
    → (with_checkword b).checkword ≡ bit_xor (crc_loop 16 b.infoword b.checkword) b.offset_word
unfolding with_checkword
with_checkword-eq b v =
    let check = crc_loop 16 b.infoword b.checkword in
    let small : check < 1024 = crc_loop-lt 16 b.infoword b.checkword (omega arith) v.check_fits in
    mod-eq_of_lt (xor-lt 10 check b.offset_word small v.offset_fits)

pub with_checkword-lt : (b : Block) → (with_checkword b).checkword < 1024
unfolding with_checkword
with_checkword-lt b = omega arith

-- The two fields stand side by side.
pub generate_block_fields :
    (b : Block) → generate_block b ≡ b.infoword * 1024 + (with_checkword b).checkword
unfolding generate_block
generate_block_fields b =
    bit_or_fields' 10 b.infoword (with_checkword b).checkword (with_checkword-lt b)

pub syndrome-generate_block_sum :
    (b : Block) → IsBlock b → syndrome (generate_block b) ≡ bit_xor b.checkword b.offset_word
syndrome-generate_block_sum b v =
    let check = crc_loop 16 b.infoword b.checkword in
    let whole : b.infoword % 2 ^ 16 ≡ b.infoword = omega (arith, v.info_fits) in
    ap syndrome (generate_block_fields b)
    ∙ ap syndrome (sym (bit_xor_fields 10 b.infoword _ (with_checkword-lt b)))
    ∙ ap (λ (t : ℕ). syndrome (bit_xor (b.infoword * 1024) t)) (with_checkword-eq b v)
    ∙ ap syndrome (sym (xor_assoc (b.infoword * 1024) check b.offset_word))
    ∙ syndrome-xor (bit_xor (b.infoword * 1024) check) b.offset_word
    ∙ ap₂ bit_xor
        (ap (λ (t : ℕ). syndrome (bit_xor (t * 1024) check)) (sym whole)
          ∙ crc_loop_lem 16 b.infoword b.checkword (omega arith) v.check_fits)
        (syndrome_short b.offset_word v.offset_fits)

-- A block whose fields fit and whose checkword starts at 0 is sent as a word of 26 bits that holds
-- the infoword in its high 16 bits, and whose remainder by the generator is the offset word.
pub syndrome-generate_block :
    (b : Block)
    → IsBlock b
    → b.checkword ≡ 0
    → (syndrome (generate_block b) ≡ b.offset_word)
      × (generate_block b / 1024 ≡ b.infoword)
      × (generate_block b < 2 ^ 26)
syndrome-generate_block b v e = (
  syndrome-generate_block_sum b v ∙ ap (λ t. bit_xor t b.offset_word) e ∙ zero-xor b.offset_word,
  omega (arith, generate_block_fields b, with_checkword-lt b),
  omega (arith, generate_block_fields b, with_checkword-lt b, v.info_fits),
)
