-- ===== src/Base/Bits.antt =====
-- `|`, `&` and `^` at variables: one equation for the lowest digit of each, and from these the
-- forms that the source uses, as arithmetic.
use Prim.Native.Nat.{
  ℕ, zero, suc, ◌+◌, ◌-◌, ◌*◌, ◌/◌, ◌%◌, ◌^◌, ◌≤◌, ◌<◌, min, max, bit_and, bit_or, bit_xor, digits,
  bitwise, differ, bit_and-bitwise, bit_or-bitwise, bit_xor-bitwise,
}
use mathlib.Core.Path.{◌≡◌, refl, ap, ap₂, sym, ◌∙◌}
use mathlib.Core.Logic.{◌⊎◌, inl, inr}
use jmpxrds.Base.Tests.{◌==◌}
use native.Mathlib.Omega.{arith}
use native.Mathlib.Nat.{pow-suc, one-le-pow, div-add-mod', mod-lt}

module _ (z : ℕ → ℕ) (f : ℕ → ℕ → ℕ) where
  -- Fuel beyond the first number's size changes nothing.
  digits_enough : (n k a b : ℕ) → a ≤ n → a ≤ k → digits z f n a b ≡ digits z f k a b
  digits_enough zero zero a b h g = refl
  digits_enough zero (suc k) zero b h g = refl
  digits_enough zero (suc k) (suc a) b h g = absurd (omega arith)
  digits_enough (suc n) zero zero b h g = refl
  digits_enough (suc n) zero (suc a) b h g = absurd (omega arith)
  digits_enough (suc n) (suc k) zero b h g = refl
  digits_enough (suc n) (suc k) (suc a) b h g =
      ap (λ (t : ℕ). t * 2 + f (suc a % 2) (b % 2))
        (digits_enough n k (suc a / 2) (b / 2) (omega arith) (omega arith))

  low_digit :
      (a b : ℕ)
      → bitwise z f (suc a) b ≡ bitwise z f (suc a / 2) (b / 2) * 2 + f (suc a % 2) (b % 2)
  low_digit a b =
      ap (λ (t : ℕ). t * 2 + f (suc a % 2) (b % 2))
        (digits_enough a (suc a / 2) (suc a / 2) (b / 2) (omega arith) (omega arith))

pub bit_and-step : (a b : ℕ) → bit_and a b ≡ bit_and (a / 2) (b / 2) * 2 + min (a % 2) (b % 2)
bit_and-step zero b = simp bit_and-bitwise (omega arith)
bit_and-step (suc a) b = simp bit_and-bitwise (low_digit (λ y. 0) min a b)

pub bit_or-step : (a b : ℕ) → bit_or a b ≡ bit_or (a / 2) (b / 2) * 2 + max (a % 2) (b % 2)
bit_or-step zero b = simp bit_or-bitwise (omega arith)
bit_or-step (suc a) b = simp bit_or-bitwise (low_digit (λ y. y) max a b)

differ_digits : (x y : ℕ) → x < 2 → y < 2 → differ x y ≡ (x + y) % 2
differ_digits zero y h g = omega arith
differ_digits (suc zero) zero h g = omega arith
differ_digits (suc zero) (suc zero) h g = omega arith
differ_digits (suc zero) (suc (suc y)) h g = absurd (omega arith)
differ_digits (suc (suc x)) y h g = absurd (omega arith)

xor_low_digit :
    (a b : ℕ) → bit_xor (suc a) b ≡ bit_xor (suc a / 2) (b / 2) * 2 + differ (suc a % 2) (b % 2)
xor_low_digit a b = simp bit_xor-bitwise (low_digit (λ y. y) differ a b)

pub bit_xor-step : (a b : ℕ) → bit_xor a b ≡ bit_xor (a / 2) (b / 2) * 2 + (a + b) % 2
bit_xor-step zero b = simp bit_xor-bitwise (omega arith)
bit_xor-step (suc a) b =
    omega (arith, xor_low_digit a b, differ_digits (suc a % 2) (b % 2) (omega arith) (omega arith))

or_zero_below : (n a : ℕ) → a ≤ n → bit_or a 0 ≡ a
or_zero_below n zero h = refl
or_zero_below zero (suc a) h = absurd (omega arith)
or_zero_below (suc n) (suc a) h =
    omega (arith, bit_or-step (suc a) 0, or_zero_below n (suc a / 2) (omega arith))

pub bit_or-zero : (a : ℕ) → bit_or a 0 ≡ a
bit_or-zero a = or_zero_below a a (omega arith)

zero-bit_or : (b : ℕ) → bit_or 0 b ≡ b
zero-bit_or b = bit_or-bitwise 0 b

or_comm_below : (n a b : ℕ) → a ≤ n → bit_or a b ≡ bit_or b a
or_comm_below n zero b h = omega (arith, zero-bit_or b, bit_or-zero b)
or_comm_below zero (suc a) b h = absurd (omega arith)
or_comm_below (suc n) (suc a) b h = omega (
  arith,
  bit_or-step (suc a) b,
  bit_or-step b (suc a),
  or_comm_below n (suc a / 2) (b / 2) (omega arith),
)

pub bit_or_comm : (a b : ℕ) → bit_or a b ≡ bit_or b a
bit_or_comm a b = or_comm_below a a b (omega arith)

pub double_pow : (high k : ℕ) → high * 2 ^ suc k ≡ 2 * (high * 2 ^ k)
double_pow high k = omega (arith, ap (λ (t : ℕ). high * t) (pow-suc 2 k))

-- `(high << k) | low` is a sum when `low` fits `k` bits.
pub bit_or_fields : (k high low : ℕ) → low < 2 ^ k → bit_or (high * 2 ^ k) low ≡ high * 2 ^ k + low
bit_or_fields zero high low h = ground (arith, bit_or-zero high)
bit_or_fields (suc k) high low h =
    let even : high * 2 ^ suc k / 2 ≡ high * 2 ^ k = omega (arith, double_pow high k) in
    let rest = bit_or_fields k high (low / 2) (omega (arith, pow-suc 2 k)) in
    omega (
      arith,
      bit_or-step (high * 2 ^ suc k) low,
      double_pow high k,
      ap (λ (t : ℕ). bit_or t (low / 2)) even,
      rest,
    )

-- The same with the low field written first.
pub bit_or_fields' : (k high low : ℕ) → low < 2 ^ k → bit_or low (high * 2 ^ k) ≡ high * 2 ^ k + low
bit_or_fields' k high low h = bit_or_comm low (high * 2 ^ k) ∙ bit_or_fields k high low h

and_zero_below : (n a : ℕ) → a ≤ n → bit_and a 0 ≡ 0
and_zero_below n zero h = refl
and_zero_below zero (suc a) h = absurd (omega arith)
and_zero_below (suc n) (suc a) h =
    omega (arith, bit_and-step (suc a) 0, and_zero_below n (suc a / 2) (omega arith))

pub bit_and-zero : (a : ℕ) → bit_and a 0 ≡ 0
bit_and-zero a = and_zero_below a a (omega arith)

mask_keeps : (k q r : ℕ) → r < 2 ^ k → bit_and (q * 2 ^ k + r) (2 ^ k - 1) ≡ r
mask_keeps zero q r h = omega (arith, bit_and-zero (q * 1 + r))
mask_keeps (suc k) q r h =
    let a : ℕ = q * 2 ^ suc k + r in
    let halved : a / 2 ≡ q * 2 ^ k + r / 2 = omega (arith, double_pow q k) in
    let mask : (2 ^ suc k - 1) / 2 ≡ 2 ^ k - 1 = omega (arith, pow-suc 2 k, one-le-pow k 2) in
    let rest = mask_keeps k q (r / 2) (omega (arith, pow-suc 2 k)) in
    omega (
      arith,
      bit_and-step a (2 ^ suc k - 1),
      double_pow q k,
      pow-suc 2 k,
      one-le-pow k 2,
      ap₂ bit_and halved mask,
      rest,
    )

-- A mask of low ones is a remainder.
pub bit_and_mask : (k a : ℕ) → bit_and a (2 ^ k - 1) ≡ a % 2 ^ k
bit_and_mask k a =
    ap (λ (t : ℕ). bit_and t (2 ^ k - 1)) (sym (div-add-mod' a (2 ^ k)))
    ∙ mask_keeps k (a / 2 ^ k) (a % 2 ^ k) (mod-lt a (one-le-pow k 2 (omega arith)))

-- The digit of `a` at position `k`.
abbrev pub digit : ℕ → ℕ → ℕ
digit zero a = a % 2
digit (suc k) a = digit k (a / 2)

-- `a & (1 << k)` keeps that digit.
pub bit_and_bit : (k a : ℕ) → bit_and a (1 * 2 ^ k) ≡ digit k a * 2 ^ k
bit_and_bit zero a = omega (arith, bit_and-step a 1, bit_and-zero (a / 2))
bit_and_bit (suc k) a =
    let even : 1 * 2 ^ suc k / 2 ≡ 1 * 2 ^ k = omega (arith, double_pow 1 k) in
    omega (
      arith,
      bit_and-step a (1 * 2 ^ suc k),
      double_pow 1 k,
      double_pow (digit k (a / 2)) k,
      ap (λ (t : ℕ). bit_and (a / 2) t) even,
      bit_and_bit k (a / 2),
    )

pub digit-lt : (k a : ℕ) → digit k a < 2
digit-lt zero a = omega arith
digit-lt (suc k) a = digit-lt k (a / 2)

-- One more digit of a remainder, at its low and at its high end.
pub mod_low_digit : (k a : ℕ) → a % 2 ^ suc k ≡ 2 * (a / 2 % 2 ^ k) + a % 2
mod_low_digit k a =
    let mask : (2 ^ suc k - 1) / 2 ≡ 2 ^ k - 1 = omega (arith, pow-suc 2 k, one-le-pow k 2) in
    omega (
      arith,
      bit_and_mask (suc k) a,
      bit_and_mask k (a / 2),
      bit_and-step a (2 ^ suc k - 1),
      ap (λ (t : ℕ). bit_and (a / 2) t) mask,
      pow-suc 2 k,
      one-le-pow k 2,
    )

pub mod_high_digit : (k a : ℕ) → a % 2 ^ suc k ≡ digit k a * 2 ^ k + a % 2 ^ k
mod_high_digit zero a = omega arith
mod_high_digit (suc k) a = omega (
  arith,
  mod_low_digit (suc k) a,
  mod_low_digit k a,
  mod_high_digit k (a / 2),
  double_pow (digit k (a / 2)) k,
)

xor_zero_below : (n a : ℕ) → a ≤ n → bit_xor a 0 ≡ a
xor_zero_below n zero h = refl
xor_zero_below zero (suc a) h = absurd (omega arith)
xor_zero_below (suc n) (suc a) h =
    omega (arith, bit_xor-step (suc a) 0, xor_zero_below n (suc a / 2) (omega arith))

xor_zero_right : (a : ℕ) → bit_xor a 0 ≡ a
xor_zero_right a = xor_zero_below a a (omega arith)

-- `^` of disjoint fields.
pub bit_xor_fields : (k q r : ℕ) → r < 2 ^ k → bit_xor (q * 2 ^ k) r ≡ q * 2 ^ k + r
bit_xor_fields zero q zero h = omega (arith, xor_zero_right (q * 1))
bit_xor_fields zero q (suc r) h = absurd (omega arith)
bit_xor_fields (suc k) q r h =
    let even : q * 2 ^ suc k / 2 ≡ q * 2 ^ k = omega (arith, double_pow q k) in
    let rest = bit_xor_fields k q (r / 2) (omega (arith, pow-suc 2 k)) in
    omega (
      arith,
      bit_xor-step (q * 2 ^ suc k) r,
      double_pow q k,
      ap (λ (t : ℕ). bit_xor t (r / 2)) even,
      rest,
    )

pub digit_cases : (k a : ℕ) → (digit k a ≡ 0) ⊎ (digit k a ≡ 1)
digit_cases k a = omega (arith, digit-lt k a)

-- The test `a & (1 << k)`.
pub bit_test : (k a : ℕ) → (bit_and a (1 * 2 ^ k) == 0) ≡ (digit k a == 0)
bit_test k a =
    let few = digit-lt k a in
    let one = one-le-pow k 2 (omega arith) in
    elim (digit_cases k a) [
      | inl e ↦ ground (arith, bit_and_bit k a, ap (λ (t : ℕ). t * 2 ^ k) e)
      | inr e ↦ ground (arith, bit_and_bit k a, ap (λ (t : ℕ). t * 2 ^ k) e)
    ]

-- Sums of single digits.
pub bit_xor_digits : (a b : ℕ) → a < 2 → b < 2 → bit_xor a b ≡ (a + b) % 2
bit_xor_digits a b h g =
    let low : a / 2 ≡ 0 = omega arith in
    let low' : b / 2 ≡ 0 = omega arith in omega (arith, bit_xor-step a b, ap₂ bit_xor low low')

-- `|` of a field and a multiple of its range, in either order.
pub bit_or_add : (k x r : ℕ) → x % 2 ^ k ≡ 0 → r < 2 ^ k → bit_or x r ≡ x + r
bit_or_add k x r e h =
    let whole : x / 2 ^ k * 2 ^ k ≡ x = omega (arith, div-add-mod' x (2 ^ k)) in
    ap (λ t. bit_or t r) (sym whole) ∙ bit_or_fields k (x / 2 ^ k) r h ∙ ap (λ (t : ℕ). t + r) whole

pub bit_or_add' : (k x r : ℕ) → x % 2 ^ k ≡ 0 → r < 2 ^ k → bit_or r x ≡ x + r
bit_or_add' k x r e h = bit_or_comm r x ∙ bit_or_add k x r e h
