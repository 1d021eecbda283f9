-- ===== src/Base/Xor.antt =====
-- The laws of exclusive or, from its lowest digit.
use Prim.Native.Nat.{ℕ, zero, suc, ◌+◌, ◌*◌, ◌/◌, ◌%◌, ◌^◌, ◌≤◌, ◌<◌, bit_xor}
use mathlib.Core.Path.{◌≡◌, refl, sym, ap, ap₂, ◌∙◌}
use native.Mathlib.Nat.{pow-suc}
use native.Mathlib.Omega.{arith}
use jmpxrds.Base.Bits.{bit_xor-step, digit}

self_below : (n a : ℕ) → a ≤ n → bit_xor a a ≡ 0
self_below n zero h = refl
self_below zero (suc a) h = absurd (omega arith)
self_below (suc n) (suc a) h =
    omega (arith, bit_xor-step (suc a) (suc a), self_below n (suc a / 2) (omega arith))

pub xor_self : (a : ℕ) → bit_xor a a ≡ 0
xor_self a = self_below a a (omega arith)

zero_below : (n b : ℕ) → b ≤ n → bit_xor 0 b ≡ b
zero_below zero zero h = refl
zero_below zero (suc b) h = absurd (omega arith)
zero_below (suc n) b h = omega (arith, bit_xor-step 0 b, zero_below n (b / 2) (omega arith))

pub zero-xor : (b : ℕ) → bit_xor 0 b ≡ b
zero-xor b = zero_below b b (omega arith)

comm_below : (n a b : ℕ) → a ≤ n → b ≤ n → bit_xor a b ≡ bit_xor b a
comm_below zero zero zero h g = refl
comm_below zero zero (suc b) h g = absurd (omega arith)
comm_below zero (suc a) b h g = absurd (omega arith)
comm_below (suc n) a b h g = omega (
  arith,
  bit_xor-step a b,
  bit_xor-step b a,
  comm_below n (a / 2) (b / 2) (omega arith) (omega arith),
)

pub xor_comm : (a b : ℕ) → bit_xor a b ≡ bit_xor b a
xor_comm a b = comm_below (a + b) a b (omega arith) (omega arith)

pub xor-zero : (a : ℕ) → bit_xor a 0 ≡ a
xor-zero a = xor_comm a 0 ∙ zero-xor a

-- The two parts of a result.
pub xor-half : (a b : ℕ) → bit_xor a b / 2 ≡ bit_xor (a / 2) (b / 2)
xor-half a b = omega (arith, bit_xor-step a b)

pub xor-mod : (a b : ℕ) → bit_xor a b % 2 ≡ (a + b) % 2
xor-mod a b = omega (arith, bit_xor-step a b)

assoc_below :
    (n a b c : ℕ) → a ≤ n → b ≤ n → c ≤ n → bit_xor (bit_xor a b) c ≡ bit_xor a (bit_xor b c)
assoc_below zero a b c h g k = rw (is_zero a h, is_zero b g, is_zero c k) refl
  where
    is_zero : (x : ℕ) → x ≤ 0 → x ≡ 0
    is_zero x p = omega arith
assoc_below (suc n) a b c h g k = omega (
  arith,
  bit_xor-step (bit_xor a b) c,
  bit_xor-step a (bit_xor b c),
  xor-mod a b,
  xor-mod b c,
  ap (λ (t : ℕ). bit_xor t (c / 2)) (xor-half a b),
  ap (λ (t : ℕ). bit_xor (a / 2) t) (xor-half b c),
  assoc_below n (a / 2) (b / 2) (c / 2) (omega arith) (omega arith) (omega arith),
)

pub xor_assoc : (a b c : ℕ) → bit_xor (bit_xor a b) c ≡ bit_xor a (bit_xor b c)
xor_assoc a b c = assoc_below (a + b + c) a b c (omega arith) (omega arith) (omega arith)

pub xor_cancel : (a b : ℕ) → bit_xor a (bit_xor a b) ≡ b
xor_cancel a b = rw (← xor_assoc, xor_self) (zero-xor b)

-- Regrouping of a sum of two sums.
pub xor_interchange :
    (a b c d : ℕ) → bit_xor (bit_xor a b) (bit_xor c d) ≡ bit_xor (bit_xor a c) (bit_xor b d)
xor_interchange a b c d =
    xor_assoc a b (bit_xor c d)
    ∙ ap (bit_xor a)
        (sym (xor_assoc b c d) ∙ ap (λ t. bit_xor t d) (xor_comm b c) ∙ xor_assoc c b d)
    ∙ sym (xor_assoc a c (bit_xor b d))

pub xor-lt : (k a b : ℕ) → a < 2 ^ k → b < 2 ^ k → bit_xor a b < 2 ^ k
xor-lt zero zero zero h g = omega arith
xor-lt zero zero (suc b) h g = absurd (omega arith)
xor-lt zero (suc a) b h g = absurd (omega arith)
xor-lt (suc k) a b h g = omega (
  arith,
  pow-suc 2 k,
  bit_xor-step a b,
  xor-lt k (a / 2) (b / 2) (omega (arith, pow-suc 2 k)) (omega (arith, pow-suc 2 k)),
)

pub digit-xor : (k a b : ℕ) → digit k (bit_xor a b) ≡ (digit k a + digit k b) % 2
digit-xor zero a b = omega (arith, xor-mod a b)
digit-xor (suc k) a b = ap (digit k) (xor-half a b) ∙ digit-xor k (a / 2) (b / 2)

xor-double : (a b : ℕ) → bit_xor (a * 2) (b * 2) ≡ bit_xor a b * 2
xor-double a b =
    let left : a * 2 / 2 ≡ a = omega arith in
    let right : b * 2 / 2 ≡ b = omega arith in
    omega (arith, bit_xor-step (a * 2) (b * 2), ap₂ bit_xor left right)

pub xor-shift : (k a b : ℕ) → bit_xor (a * 2 ^ k) (b * 2 ^ k) ≡ bit_xor a b * 2 ^ k
xor-shift zero a b = ground arith
xor-shift (suc k) a b =
    let left : a * 2 ^ suc k ≡ a * 2 ^ k * 2 = omega (arith, ap (λ (t : ℕ). a * t) (pow-suc 2 k)) in
    let right : b * 2 ^ suc k ≡ b * 2 ^ k * 2 =
      omega (arith, ap (λ (t : ℕ). b * t) (pow-suc 2 k)) in
    omega (
      arith,
      ap₂ bit_xor left right,
      xor-double (a * 2 ^ k) (b * 2 ^ k),
      xor-shift k a b,
      ap (λ (t : ℕ). bit_xor a b * t) (pow-suc 2 k),
    )
