-- ===== src/Codes/Found.antt =====
-- What every search of the code tables finds: the first entry that passes its test, or -1 when no
-- entry does.
use jmpxrds.Base.{
  ℕ, zero, suc, ◌+◌, ◌<◌, List, [], ◌∷◌, Bool, Bool-cases, true, false, length, get_or, ◌==◌, ◌≡◌,
  ◌⊎◌, inl, inr, refl, ap, ◌∙◌, arith, bit_or, bit_and, ◌<<<◌,
}
use jmpxrds.Base.Int.{ℤ, pos, minus}
use jmpxrds.Codes.{find_index, get_ctry_idx_from_ctry_codes}
use jmpxrds.Codes.Countries.{ctry_codes}
use jmpxrds.Codes.Map.{CodeMap, entry}

module _ {A : Type 0} (test : A → Bool) (d : A) where
  -- The first index, from `i` on, that passes, or none.
  abbrev pub IsFirst : List A → ℕ → ℤ → Type 0
  IsFirst xs i z =
      ((j : ℕ) × (z ≡ pos (i + j))
        × (j < length xs)
        × (test (get_or xs j d) ≡ true)
        × ((k : ℕ) → k < j → test (get_or xs k d) ≡ false))
      ⊎ ((z ≡ minus 1) × ((k : ℕ) → k < length xs → test (get_or xs k d) ≡ false))

  pub find_index-IsFirst : (xs : List A) (i : ℕ) → IsFirst xs i (find_index test xs i)
  unfolding find_index
  find_index-IsFirst [] i = inr (refl, λ k h. absurd (omega arith))
  find_index-IsFirst (x ∷ xs) i = elim (Bool-cases (test x)) [
    | inl yes' ↦
        rw yes' (inl (0, ap pos (omega arith), omega arith, yes', λ k h. absurd (omega arith)))
    | inr no' ↦ rw no' (shift no' (find_index-IsFirst xs (i + 1)))
  ]
    where
      before : (P : ℕ → Type 0) → P 0 → ((k : ℕ) → P (suc k)) → (k : ℕ) → P k
      before P z s zero = z
      before P z s (suc k) = s k

      shift :
          test x ≡ false
          → IsFirst xs (i + 1) (find_index test xs (i + 1))
          → IsFirst (x ∷ xs) i (find_index test xs (i + 1))
      shift no' (inl (j, e, h, p, q)) = inl (
        suc j,
        e ∙ ap pos (omega arith),
        omega arith,
        p,
        before (λ k. k < suc j → test (get_or (x ∷ xs) k d) ≡ false) (λ _. no')
            (λ k h. q k (omega arith)),
      )
      shift no' (inr (e, q)) = inr (
        e,
        before (λ k. k < suc (length xs) → test (get_or (x ∷ xs) k d) ≡ false) (λ _. no')
            (λ k h. q k (omega arith)),
      )

-- The search by country code and extended country code, on every input: it gives the first country
-- of the table with this code, or -1 if no country has it.
pub get_ctry_idx_from_ctry_codes-IsFirst :
    (ctry_code ecc : ℕ)
    → IsFirst
        (λ (e : CodeMap). e.code == bit_or (bit_and ctry_code 0xF <<< 8) ecc)
        (entry 0 "")
        ctry_codes
        0
        (get_ctry_idx_from_ctry_codes ctry_code ecc)
unfolding get_ctry_idx_from_ctry_codes
get_ctry_idx_from_ctry_codes-IsFirst ctry_code ecc =
    find_index-IsFirst (λ (e : CodeMap). e.code == bit_or (bit_and ctry_code 0xF <<< 8) ecc)
      (entry 0 "") ctry_codes 0
