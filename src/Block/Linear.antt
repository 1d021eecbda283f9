-- ===== src/Block/Linear.antt =====
-- Long division by the generator is linear.
use jmpxrds.Base.{
  ℕ, zero, suc, ◌+◌, ◌*◌, ◌/◌, ◌%◌, ◌<◌, bit_xor, leb, if◌then◌else◌, digit, ◌≡◌, refl, sym, ap,
  ap₂, ◌∙◌, arith, digit-lt, bit_xor-step,
}
use jmpxrds.Base.Xor.{digit-xor, xor-lt, xor_assoc, xor_comm, xor_self, xor-zero, xor_interchange}
use jmpxrds.Block.Crc.{generator, shift_in, divide, syndrome}

-- The part of `shift_in` after the digit is brought down.
abbrev reduce : ℕ → ℕ
reduce s = if leb 1024 s then bit_xor s generator else s

reduce-lt : (s : ℕ) → s < 2048 → reduce s < 1024
reduce-lt s h = ground (arith, digit-xor 10 s generator, xor-lt 11 s generator)

reduce-xor : (s t : ℕ) → s < 2048 → t < 2048 → reduce (bit_xor s t) ≡ bit_xor (reduce s) (reduce t)
reduce-xor s t h g = ground (
  arith,
  digit-xor 10 s t,
  xor-lt 11 s t h g,
  xor_assoc s t generator,
  xor_assoc s generator t,
  xor_comm t generator,
  xor_interchange s generator t generator,
  xor_self generator,
  xor-zero (bit_xor s t),
)

module _ (r s b c : ℕ) (r-lt : r < 1024) (s-lt : s < 1024) (b-lt : b < 2) (c-lt : c < 2) where
  -- Bringing down a digit commutes with the sum.
  shifted : bit_xor (r * 2 + b) (s * 2 + c) ≡ bit_xor r s * 2 + (b + c) % 2
  shifted =
      let left : (r * 2 + b) / 2 ≡ r = omega arith in
      let right : (s * 2 + c) / 2 ≡ s = omega arith in
      omega (arith, bit_xor-step (r * 2 + b) (s * 2 + c), ap₂ bit_xor left right)

  shift_in-xor : shift_in (bit_xor r s) ((b + c) % 2) ≡ bit_xor (shift_in r b) (shift_in s c)
  unfolding shift_in
  shift_in-xor =
      ap reduce (sym shifted) ∙ reduce-xor (r * 2 + b) (s * 2 + c) (omega arith) (omega arith)

pub shift_in-lt : (r b : ℕ) → r < 1024 → b < 2 → shift_in r b < 1024
unfolding shift_in
shift_in-lt r b h g = reduce-lt (r * 2 + b) (omega arith)

pub divide-lt : (k w r : ℕ) → r < 1024 → divide k w r < 1024
unfolding divide
divide-lt zero w r h = h
divide-lt (suc k) w r h = divide-lt k w _ (shift_in-lt r (digit k w) h (digit-lt k w))

pub divide-xor :
    (k v w r s : ℕ)
    → r < 1024
    → s < 1024
    → divide k (bit_xor v w) (bit_xor r s) ≡ bit_xor (divide k v r) (divide k w s)
unfolding divide
divide-xor zero v w r s h g = refl
divide-xor (suc k) v w r s h g =
    let next : shift_in (bit_xor r s) (digit k (bit_xor v w))
        ≡ bit_xor (shift_in r (digit k v)) (shift_in s (digit k w)) =
      ap (shift_in (bit_xor r s)) (digit-xor k v w)
      ∙ shift_in-xor r s (digit k v) (digit k w) h g (digit-lt k v) (digit-lt k w) in
    ap (divide k (bit_xor v w)) next
    ∙ divide-xor k v w _ _ (shift_in-lt r _ h (digit-lt k v)) (shift_in-lt s _ g (digit-lt k w))

-- The syndrome of a sum of words is the sum of their syndromes.
pub syndrome-xor : (v w : ℕ) → syndrome (bit_xor v w) ≡ bit_xor (syndrome v) (syndrome w)
unfolding syndrome
syndrome-xor v w = divide-xor 26 v w 0 0 (omega arith) (omega arith)
