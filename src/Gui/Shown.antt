-- ===== src/Gui/Shown.antt =====
-- What an entry with completion shows of the state.
use Prim.Native.String.{String}
use mathlib.Core.Option
use jmpxrds.Base.{
  ℕ, ◌+◌, ◌*◌, ◌/◌, ◌%◌, ◌^◌, ◌<◌, bit_and, bit_or, List, Option, none, some, Bool, true, false,
  ◌==◌, leb, if◌then◌else◌, ◌≡◌, ◌⊎◌, refl, ap, ◌∙◌, sym, inl, inr, arith, ◌<<<◌, ◌>>>◌,
  bit_and_mask, bit_or_fields, all_below, all_below_sound, ==_iff, Bool-cases,
}
use jmpxrds.Base.Int.{ℤ, pos, wrap, negsuc}
use jmpxrds.Config.State.{State, get_pi, get_ecc, set_ecc, get_lic, set_lic}
use jmpxrds.Config.Valid.{IsValid, Holds, pi, ecc, lic, ps, rt, ptyn, apply, apply-IsValid}
use jmpxrds.Tool.RdsLaws.{wrap-lt}
use jmpxrds.Codes.{
  get_ecc_by_ctry_idx, get_ctry_name, get_lang_idx_from_lic, get_lang_name, get_lic_by_lang_idx,
  code_at, name_at, num_langs, num_countries,
}
use jmpxrds.Codes.Map.{CodeMap, entry}
use jmpxrds.Codes.Countries.{ctry_codes}
use jmpxrds.Codes.Languages.{li_codes}
use jmpxrds.Codes.Search.{lang_idx-round_trip, get_ctry_name-eq}
use jmpxrds.Codes.Found.{IsFirst, get_ctry_idx_from_ctry_codes-IsFirst}
use jmpxrds.Gui.Entries.{
  entry_ecc, entry_lic, looked_up, acentry_poll, Form, SetField, set_entry_pi, set_entry_ps,
  set_entry_rt, set_entry_ptyn, set_entry_ecc, set_entry_lic, store_code, matched,
  set_button_clicked,
}

-- The country's code in the state: the high four bits of the PI, and the extended country code.
abbrev pub ctry_id : State → ℕ
ctry_id st = st.pi / 2 ^ 12 * 2 ^ 8 + st.ecc

-- The country that an entry shows, or the read outside the table.
abbrev pub ShowsCountry : State → Option (Bool × String) → Type 0
ShowsCountry st shown =
    ((j : ℕ) × (j < num_countries)
      × (code_at ctry_codes j ≡ ctry_id st)
      × (shown ≡ some (true, name_at ctry_codes j)))
    ⊎ ((shown ≡ none)
        × ((j : ℕ) → j < num_countries → (code_at ctry_codes j == ctry_id st) ≡ false))

id-eq : (st : State) → IsValid st → bit_or (bit_and (st.pi >>> 12) 0xF <<< 8) st.ecc ≡ ctry_id st
id-eq st v =
    let nibble : bit_and (st.pi / 2 ^ 12) 0xF ≡ st.pi / 2 ^ 12 =
      omega (arith, bit_and_mask 4 (st.pi / 2 ^ 12), v.pi_fits) in
    ap (λ n. bit_or (n <<< 8) st.ecc) nibble ∙ bit_or_fields 8 (st.pi / 2 ^ 12) st.ecc v.ecc_fits

at_start : (j : ℕ) → 0 + j ≡ j
at_start j = omega arith

name-in : (j : ℕ) → j < num_countries → get_ctry_name (pos j) ≡ some (name_at ctry_codes j)
name-in j h = (get_ctry_name-eq j).0 ∙ elim (Bool-cases (leb num_countries j)) [
  | inl late ↦ absurd (ground arith)
  | inr early ↦ rw early refl
]

country :
    (st : State) (c : ℕ) (z : ℤ)
    → c ≡ ctry_id st
    → IsFirst (λ (e : CodeMap). e.code == c) (entry 0 "") ctry_codes 0 z
    → ShowsCountry st (Option.map (λ (name : String). (true, name)) (get_ctry_name z))
country st c z e (inl (j, at, h, p, q)) = inl (
  j,
  h,
  (==_iff _ _).0 p ∙ e,
  rw (at ∙ ap pos (at_start j)) (ap (Option.map (λ (name : String). (true, name))) (name-in j h)),
)
country st c z e (inr (none_at, q)) =
    inr (rw none_at (rw (get_ctry_name-eq 0).1 refl), rw (sym e) q)

ecc-shown :
    (st : State) (text : String)
    → IsValid st
    → ShowsCountry st (acentry_poll true true false entry_ecc (some st) text)
unfolding acentry_poll looked_up get_pi get_ecc
ecc-shown st text v =
    country st _ _ (id-eq st v) (get_ctry_idx_from_ctry_codes-IsFirst (st.pi >>> 12) st.ecc)

-- A language's code as it comes back from the state.
abbrev kept_code : ℕ → ℕ
kept_code c = (bit_and (c % 2 ^ 16) 0xFFF % 2 ^ 12) % 2 ^ 8

kept_table : all_below 104 (λ i. kept_code (code_at li_codes i) == code_at li_codes i) ≡ true
unfolding all_below
kept_table = refl

matched-code :
    (code_of : ℕ → ℤ) (i n : ℕ) (store : ℕ → Option State) (st : Option State)
    → code_of i ≡ pos n
    → matched code_of (pos i) store st ≡ store n
unfolding matched store_code
matched-code code_of i n store st e = ap (λ z. store_code z store st) e

kept-eq : (st : State) (c : ℕ) → get_lic (set_lic (some st) (c % 2 ^ 16)).0 % 2 ^ 8 ≡ kept_code c
unfolding get_lic set_lic
kept-eq st c = refl

lang_name-eq : (i : ℕ) → i < num_langs → get_lang_name (i % 2 ^ 8) ≡ name_at li_codes i
unfolding get_lang_name
lang_name-eq i h =
    let same : i % 2 ^ 8 ≡ i = omega (arith, h) in
    ap (λ n. if leb num_langs n then "" else name_at li_codes n) same
    ∙ elim (Bool-cases (leb num_langs i)) [
      | inl late ↦ absurd (ground arith)
      | inr early ↦ rw early refl
    ]

lic-looked_up :
    (st : Option State) (i : ℕ)
    → i < num_langs
    → get_lic st % 2 ^ 8 ≡ code_at li_codes i
    → looked_up entry_lic st ≡ some (name_at li_codes i)
unfolding looked_up
lic-looked_up st i h e =
    ap (λ n. some (get_lang_name (wrap 8 (get_lang_idx_from_lic n)))) e
    ∙ ap (λ z. some (get_lang_name (wrap 8 z))) (lang_idx-round_trip i h).1
    ∙ ap some (lang_name-eq i h)

lic-set :
    (strtol : ℕ → List ℕ → ℤ) (st : State) (f : Form) (i : ℕ)
    → i < num_langs
    → f.match_idx ≡ pos i
    → get_lic (set_button_clicked strtol set_entry_lic f (some st)).1 % 2 ^ 8 ≡ code_at li_codes i
unfolding set_button_clicked
lic-set strtol st f i h e =
    let same : i % 2 ^ 8 ≡ i = omega (arith, h) in
    rw e (
      ap (λ s. get_lic s % 2 ^ 8)
        (matched-code (λ n. get_lic_by_lang_idx (n % 2 ^ 8)) i (code_at li_codes i)
          (λ n. (set_lic (some st) (n % 2 ^ 16)).0) (some st)
          (ap get_lic_by_lang_idx same ∙ (lang_idx-round_trip i h).0))
      ∙ kept-eq st (code_at li_codes i)
      ∙ (==_iff _ _).0 (all_below_sound 104 _ i kept_table h))

lic-shown :
    (strtol : ℕ → List ℕ → ℤ) (st : State) (f : Form) (text : String) (i : ℕ)
    → i < num_langs
    → f.match_idx ≡ pos i
    → acentry_poll true true false entry_lic
        (set_button_clicked strtol set_entry_lic f (some st)).1
        text
      ≡ some (true, name_at li_codes i)
unfolding acentry_poll
lic-shown strtol st f text i h e =
    ap (Option.map (λ (name : String). (true, name)))
      (lic-looked_up _ i h (lic-set strtol st f i h e))

store_code-IsValid :
    (z : ℤ) (store : ℕ → Option State) (st : State)
    → IsValid st
    → ((n : ℕ) → Holds (store n))
    → Holds (store_code z store (some st))
unfolding store_code
store_code-IsValid (pos n) store st v h = h n
store_code-IsValid (negsuc n) store st v h = v

matched-IsValid :
    (code_of : ℕ → ℤ) (z : ℤ) (store : ℕ → Option State) (st : State)
    → IsValid st
    → ((n : ℕ) → Holds (store n))
    → Holds (matched code_of z store (some st))
unfolding matched
matched-IsValid code_of (pos i) store st v h = store_code-IsValid (code_of i) store st v h
matched-IsValid code_of (negsuc i) store st v h = v

-- The button "Set" of an entry leaves a valid state.
set_button_clicked-IsValid :
    (strtol : ℕ → List ℕ → ℤ) (b : SetField) (f : Form) (st : State)
    → IsValid st
    → Holds (set_button_clicked strtol b f (some st)).1
unfolding set_button_clicked apply
set_button_clicked-IsValid strtol set_entry_pi f st v =
    apply-IsValid (pi (wrap 16 (strtol 16 f.entry))) st (wrap-lt 16 (strtol 16 f.entry)) v
set_button_clicked-IsValid strtol set_entry_ps f st v = apply-IsValid (ps (some f.entry)) st tt v
set_button_clicked-IsValid strtol set_entry_rt f st v =
    apply-IsValid (rt (some f.entry) f.flag) st tt v
set_button_clicked-IsValid strtol set_entry_ptyn f st v =
    apply-IsValid (ptyn (some f.entry)) st tt v
set_button_clicked-IsValid strtol set_entry_ecc f st v =
    matched-IsValid get_ecc_by_ctry_idx f.match_idx (λ n. (set_ecc (some st) (n % 2 ^ 8)).0) st v
      (λ n. apply-IsValid (ecc (n % 2 ^ 8)) st (omega arith) v)
set_button_clicked-IsValid strtol set_entry_lic f st v =
    matched-IsValid (λ i. get_lic_by_lang_idx (i % 2 ^ 8)) f.match_idx
      (λ n. (set_lic (some st) (n % 2 ^ 16)).0) st v
      (λ n. apply-IsValid (lic (n % 2 ^ 16)) st (omega arith) v)

-- The entries with completion, seen and without the focus, at a poll (gui/jmrg_acentry.c). That of
-- the country, on a valid state, shows the name of a country whose code is the high four bits of the
-- PI and the extended country code, and where no country has this code, a text is read from outside
-- the table. That of the language, after the row of a language was matched and the button "Set"
-- pressed, shows the name of this language. The button "Set" of any entry, whatever is in it, leaves a
-- valid state.
pub acentry-IsShown :
    (strtol : ℕ → List ℕ → ℤ) (st : State) (f : Form) (text : String) (i : ℕ) (b : SetField)
    → IsValid st
    → i < num_langs
    → f.match_idx ≡ pos i
    → ShowsCountry st (acentry_poll true true false entry_ecc (some st) text)
      × (acentry_poll true true false entry_lic
            (set_button_clicked strtol set_entry_lic f (some st)).1
            text
          ≡ some (true, name_at li_codes i))
      × Holds (set_button_clicked strtol b f (some st)).1
acentry-IsShown strtol st f text i b v h e = (
  ecc-shown st text v,
  lic-shown strtol st f text i h e,
  set_button_clicked-IsValid strtol b f st v,
)
