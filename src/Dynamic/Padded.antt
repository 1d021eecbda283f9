-- ===== src/Dynamic/Padded.antt =====
-- Printable texts, padded with 0 to the length of a field, and `rds_set_ps` of them.
use jmpxrds.Base.{
  ℕ, zero, suc, ◌+◌, ◌≤◌, ◌<◌, List, [], ◌∷◌, ◌++◌, some, Bool-cases, false, inl, inr, ◌==◌, take,
  drop, replicate, length, All, ◌≡◌, refl, ap, ap₂, ◌∙◌, subst, arith,
}
use jmpxrds.Config.State.{State}
use jmpxrds.Config.Text.{set_ps, strnlen}
use jmpxrds.Config.Texts.{AreBytes, printable, field_text, set_ps-eq}

-- Printable characters of seven bits.
abbrev pub ArePrintable : List ℕ → Type 0
ArePrintable = All (λ c. (32 ≤ c) × (c < 128))

pub take-drop : (n : ℕ) (xs : List ℕ) → take n xs ++ drop n xs ≡ xs
take-drop zero xs = refl
take-drop (suc n) [] = refl
take-drop (suc n) (x ∷ xs) = ap (λ r. x ∷ r) (take-drop n xs)

pub drop-empty : (n : ℕ) → drop {A = ℕ} n [] ≡ []
drop-empty zero = refl
drop-empty (suc n) = refl

pub drop-drop : (n m k : ℕ) (xs : List ℕ) → n + m ≡ k → drop m (drop n xs) ≡ drop k xs
drop-drop zero m k xs e = ap (λ i. drop i xs) same
  where
    same : m ≡ k
    same = omega (arith, e)
drop-drop (suc n) m zero xs e = absurd (omega (arith, e))
drop-drop (suc n) m (suc k) [] e = drop-empty m
drop-drop (suc n) m (suc k) (x ∷ xs) e = drop-drop n m k xs (omega (arith, e))

pub ArePrintable-drop : (n : ℕ) (xs : List ℕ) → ArePrintable xs → ArePrintable (drop n xs)
ArePrintable-drop zero xs h = h
ArePrintable-drop (suc n) [] h = tt
ArePrintable-drop (suc n) (x ∷ xs) h = ArePrintable-drop n xs h.1

pub ArePrintable-take : (n : ℕ) (xs : List ℕ) → ArePrintable xs → ArePrintable (take n xs)
ArePrintable-take zero xs h = tt
ArePrintable-take (suc n) [] h = tt
ArePrintable-take (suc n) (x ∷ xs) h = (h.0, ArePrintable-take n xs h.1)

pub printable-same : (c : ℕ) → 32 ≤ c → c < 128 → printable c ≡ c
unfolding printable
printable-same c h g = ground arith

pub AreBytes-padded : (xs : List ℕ) (z : ℕ) → ArePrintable xs → AreBytes (xs ++ replicate z 0)
AreBytes-padded [] zero h = tt
AreBytes-padded [] (suc z) h = (omega arith, AreBytes-padded [] z h)
AreBytes-padded (x ∷ xs) z h = (omega (arith, h.0.1), AreBytes-padded xs z h.1)

-- A padded text fills its field.
pub field_text-padded :
    (m : ℕ) (xs : List ℕ) (z : ℕ)
    → ArePrintable xs
    → length xs + z ≡ m
    → field_text printable m (xs ++ replicate z 0) ≡ xs ++ replicate z 0
unfolding field_text
field_text-padded zero [] zero h e = refl
field_text-padded zero [] (suc z) h e = absurd (omega (arith, e))
field_text-padded zero (x ∷ xs) z h e = absurd (omega (arith, e))
field_text-padded (suc m) [] zero h e = absurd (omega (arith, e))
field_text-padded (suc m) [] (suc z) h e = ap (λ k. replicate (suc k) 0) same
  where
    same : m ≡ z
    same = omega (arith, e)
field_text-padded (suc m) (x ∷ xs) z h e = elim (Bool-cases (x == 0)) [
  | inl y ↦ absurd (ground (arith, h.0.0))
  | inr y ↦ rw y (
      ap₂ (λ a b. a ∷ b) (printable-same x h.0.0 h.0.1)
        (field_text-padded m xs z h.1 (omega (arith, e))))
]

pub strnlen-padded :
    (xs : List ℕ) (z : ℕ)
    → ArePrintable xs
    → 0 < length xs
    → (strnlen (xs ++ replicate z 0) 8 == 0) ≡ false
unfolding strnlen
strnlen-padded [] z h g = absurd (omega (arith, g))
strnlen-padded (x ∷ xs) z h g = elim (Bool-cases (x == 0)) [
  | inl y ↦ absurd (ground (arith, h.0.0))
  | inr y ↦ rw y (ground arith)
]

-- The PS after `set_ps` of such a text.
pub set_ps-padded :
    (st : State) (xs : List ℕ) (z : ℕ)
    → ArePrintable xs
    → 0 < length xs
    → length xs + z ≡ 8
    → (set_ps (some st) (some (xs ++ replicate z 0))).0
      ≡ some (record st { ps = xs ++ replicate z 0; ps_set = 1; ps_idx = 0 })
set_ps-padded st xs z h g e =
    ap (λ r. r.0) (set_ps-eq st (xs ++ replicate z 0) (AreBytes-padded xs z h))
    ∙ rw (strnlen-padded xs z h g, field_text-padded 8 xs z h e) refl

pub ++_nil : (xs : List ℕ) → xs ++ [] ≡ xs
++_nil [] = refl
++_nil (x ∷ xs) = ap (λ r. x ∷ r) (++_nil xs)

pub append_assoc : (xs ys zs : List ℕ) → (xs ++ ys) ++ zs ≡ xs ++ (ys ++ zs)
append_assoc [] ys zs = refl
append_assoc (x ∷ xs) ys zs = ap (λ r. x ∷ r) (append_assoc xs ys zs)

pub no_length : (xs : List ℕ) → length xs ≡ 0 → xs ≡ []
no_length [] h = refl
no_length (x ∷ xs) h = absurd (omega (arith, h))

pub set_ps-full :
    (st : State) (xs : List ℕ)
    → ArePrintable xs
    → length xs ≡ 8
    → (set_ps (some st) (some xs)).0 ≡ some (record st { ps = xs; ps_set = 1; ps_idx = 0 })
set_ps-full st xs h e =
    subst
      (λ ys. (set_ps (some st) (some ys)).0 ≡ some (record st { ps = ys; ps_set = 1; ps_idx = 0 }))
      (++_nil xs) (set_ps-padded st xs 0 h (omega (arith, e)) (omega (arith, e)))
