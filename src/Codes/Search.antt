-- ===== src/Codes/Search.antt =====
-- The searches of the code tables are inverse to the reads.
use jmpxrds.Base.{
  ℕ, ◌/◌, ◌%◌, ◌≤◌, ◌<◌, Bool-cases, true, false, get_or, ◌==◌, ==_iff, leb, if◌then◌else◌, some,
  none, all_below, all_below_sound, ◌≡◌, inl, inr, refl, ap, arith, bit_and_mask, leb→le,
  get_elem?-eq-get_or,
}
use jmpxrds.Base.Int.{ℤ, pos, negsuc, eqb_ℤ}
use jmpxrds.Codes.{
  get_lang_idx_from_lic, get_lic_by_lang_idx, get_lang_idx, get_lang_name, code_at, num_langs,
  num_countries, get_ctry_idx_from_ctry_codes, get_ecc_by_ctry_idx, get_ctry_name,
}
use mathlib.Core.Option
use jmpxrds.Codes.Map.{entry}
use jmpxrds.Codes.Languages.{li_codes}
use jmpxrds.Codes.Countries.{ctry_codes}

eqb_ℤ-eq : (a b : ℤ) → eqb_ℤ a b ≡ true → a ≡ b
eqb_ℤ-eq (pos a) (pos b) e = ap pos ((==_iff a b).0 e)
eqb_ℤ-eq (pos a) (negsuc b) e = cc
eqb_ℤ-eq (negsuc a) (pos b) e = cc
eqb_ℤ-eq (negsuc a) (negsuc b) e = ap negsuc ((==_iff a b).0 e)

lang_table : all_below 104 (λ i. eqb_ℤ (get_lang_idx_from_lic (code_at li_codes i)) (pos i)) ≡ true
unfolding all_below get_lang_idx_from_lic
lang_table = refl

lang_name_table : all_below 104 (λ i. eqb_ℤ (get_lang_idx (get_lang_name i)) (pos i)) ≡ true
unfolding all_below get_lang_idx get_lang_name
lang_name_table = refl

-- The language codes and names are unique: from the code and from the name of a language of the
-- table, both searches find its index.
pub lang_idx-round_trip :
    (i : ℕ)
    → i < num_langs
    → (get_lic_by_lang_idx i ≡ pos (code_at li_codes i))
      × (get_lang_idx_from_lic (code_at li_codes i) ≡ pos i)
      × (get_lang_idx (get_lang_name i) ≡ pos i)
unfolding get_lic_by_lang_idx
lang_idx-round_trip i h = (
  ground arith,
  eqb_ℤ-eq _ _ (all_below_sound 104 _ i lang_table h),
  eqb_ℤ-eq _ _ (all_below_sound 104 _ i lang_name_table h),
)

-- The index that the search gives back for a country's own code.
abbrev pub first_index : ℕ → ℕ
first_index i =
    elim (get_ctry_idx_from_ctry_codes (code_at ctry_codes i / 256) (code_at ctry_codes i % 256)) [
      | pos j ↦ j
      | negsuc j ↦ 0
    ]

abbrev search_code : ℕ → ℤ
search_code i =
    get_ctry_idx_from_ctry_codes (code_at ctry_codes i / 256) (code_at ctry_codes i % 256)

found_table : all_below 240 (λ i. eqb_ℤ (search_code i) (pos (first_index i))) ≡ true
unfolding all_below get_ctry_idx_from_ctry_codes
found_table = refl

before_table : all_below 240 (λ i. leb (first_index i) i) ≡ true
unfolding all_below get_ctry_idx_from_ctry_codes
before_table = refl

same_table : all_below 240 (λ i. code_at ctry_codes (first_index i) == code_at ctry_codes i) ≡ true
unfolding all_below get_ctry_idx_from_ctry_codes
same_table = refl

ecc-eq : (i : ℕ) → i < num_countries → get_ecc_by_ctry_idx i ≡ pos (code_at ctry_codes i % 256)
unfolding get_ecc_by_ctry_idx
ecc-eq i h = elim (Bool-cases (leb num_countries i)) [
  | inl late ↦ absurd (ground arith)
  | inr early ↦ rw early (ap pos (bit_and_mask 8 (code_at ctry_codes i)))
]

-- From the two parts of a country's code the search finds the first country of the table that has
-- this code, which stands at the same place or before it; the low part is what the table gives
-- out as the extended country code.
pub ctry_idx-round_trip :
    (i : ℕ)
    → i < num_countries
    → let code = code_at ctry_codes i in
      (get_ctry_idx_from_ctry_codes (code / 256) (code % 256) ≡ pos (first_index i))
      × (first_index i ≤ i)
      × (code_at ctry_codes (first_index i) ≡ code)
      × (get_ecc_by_ctry_idx i ≡ pos (code % 256))
ctry_idx-round_trip i h = (
  eqb_ℤ-eq _ _ (all_below_sound 240 _ i found_table h),
  leb→le _ _ (all_below_sound 240 _ i before_table h),
  (==_iff _ _).0 (all_below_sound 240 _ i same_table h),
  ecc-eq i h,
)

below : (n : ℕ) → leb 240 n ≡ false → n < 240
below n e = ground arith

-- The name of a country by an `int`: the table's for an index in it, the empty text above it, and a
-- read outside the table below 0, which the test of the upper end does not stop.
pub get_ctry_name-eq :
    (n : ℕ)
    → (get_ctry_name (pos n)
        ≡ some (if leb num_countries n then "" else (get_or ctry_codes n (entry 0 "")).name))
      × (get_ctry_name (negsuc n) ≡ none)
unfolding get_ctry_name
get_ctry_name-eq n = elim (Bool-cases (leb num_countries n)) [
  | inl late ↦ rw late (refl, refl)
  | inr early ↦ rw early (
    ap (Option.map (λ e. e.name)) (get_elem?-eq-get_or ctry_codes n (entry 0 "") (below n early)),
    refl,
  )
]

-- Both tables of codes, of languages and of countries: the searches find from the code and from the
-- name of a language its index, and from the two parts of a country's code the first country of the
-- table with this code, at the same place or before it. The low part of the code is what the table
-- gives out as the extended country code.
pub code_tables-round_trip :
    (i j : ℕ)
    → i < num_langs
    → j < num_countries
    → let code = code_at ctry_codes j in
      ((get_lic_by_lang_idx i ≡ pos (code_at li_codes i))
        × (get_lang_idx_from_lic (code_at li_codes i) ≡ pos i)
        × (get_lang_idx (get_lang_name i) ≡ pos i))
      × ((get_ctry_idx_from_ctry_codes (code / 256) (code % 256) ≡ pos (first_index j))
          × (first_index j ≤ j)
          × (code_at ctry_codes (first_index j) ≡ code)
          × (get_ecc_by_ctry_idx j ≡ pos (code % 256)))
code_tables-round_trip i j h g = (lang_idx-round_trip i h, ctry_idx-round_trip j g)
