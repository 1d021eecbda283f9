-- ===== src/Codes.antt =====
-- gui/rds_codes.c: the tables of country, language and programme type codes, and the searches in
-- them. Names are texts without a 0, of at most 29 characters in the tables, so the source's
-- comparison of 32 characters tells every one of them apart from any other text. A read
-- outside a table is `none`.
pub mod Map
pub mod Countries
pub mod Languages
pub mod Programmes
pub mod Search
pub mod Found
use Prim.Native.String.{String}
use text.Mathlib.Text.{◌==◌ as str_eq}
use mathlib.Core.Option
use jmpxrds.Base.{
  ℕ, suc, ◌+◌, ◌-◌, ◌*◌, ◌^◌, ◌%◌, bit_and, bit_or, List, [], ◌∷◌, Option, some, none, Bool, ◌&&◌,
  length, get_or, get_elem?, ◌==◌, ltb, leb, if◌then◌else◌, ◌<<<◌, ◌>>>◌,
}
use jmpxrds.Base.Int.{ℤ, pos, negsuc, minus, leb_ℤ}
use Map.{CodeMap, entry}
use Countries.{ctry_codes}
use Languages.{li_codes}
use Programmes.{pty_codes}

-- `for (i = 0; i < n; i++) if (test) return i; return -1;`
pub find_index : {A : Type 0} → (A → Bool) → List A → ℕ → ℤ
find_index test [] i = minus 1
find_index test (x ∷ xs) i = if test x then pos i else find_index test xs (i + 1)

abbrev pub num_countries : ℕ
num_countries = length ctry_codes

abbrev pub num_langs : ℕ
num_langs = length li_codes

-- A table read at an `int`.
abbrev pub read_entry : ℤ → Option CodeMap
read_entry (pos i) = get_elem? ctry_codes i
read_entry (negsuc i) = none

abbrev pub code_at : List CodeMap → ℕ → ℕ
code_at t i = (get_or t i (entry 0 "")).code

abbrev pub name_at : List CodeMap → ℕ → String
name_at t i = (get_or t i (entry 0 "")).name

unfoldable pub get_ctry_idx : String → ℤ
unfolding find_index
get_ctry_idx ctry_name = find_index (λ e. str_eq ctry_name e.name) ctry_codes 0

-- Only the upper end of the table is tested.
unfoldable pub get_ctry_name : ℤ → Option String
get_ctry_name idx =
    if leb_ℤ (pos num_countries) idx then some "" else Option.map (λ e. e.name) (read_entry idx)

unfoldable pub get_ctry_code_by_ctry_idx : ℕ → ℤ
get_ctry_code_by_ctry_idx ctry_idx =
    if leb num_countries ctry_idx
    then minus 1
    else if ltb ctry_idx (num_countries - 2)
        && str_eq (name_at ctry_codes ctry_idx) (name_at ctry_codes (ctry_idx + 1))
    then minus 2
    else pos (bit_and (code_at ctry_codes ctry_idx) 0x0F00 >>> 4)

unfoldable pub get_ecc_by_ctry_idx : ℕ → ℤ
get_ecc_by_ctry_idx ctry_idx =
    if leb num_countries ctry_idx
    then minus 1
    else pos (bit_and (code_at ctry_codes ctry_idx) 0x00FF)

unfoldable pub get_ctry_idx_from_ctry_codes : ℕ → ℕ → ℤ
unfolding find_index
get_ctry_idx_from_ctry_codes ctry_code ecc =
    let ctry_id = bit_or (bit_and ctry_code 0xF <<< 8) ecc in
    find_index (λ e. e.code == ctry_id) ctry_codes 0

unfoldable pub get_lang_idx : String → ℤ
unfolding find_index
get_lang_idx lang = find_index (λ e. str_eq lang e.name) li_codes 0

unfoldable pub get_lang_name : ℕ → String
get_lang_name lang_idx = if leb num_langs lang_idx then "" else name_at li_codes lang_idx

unfoldable pub get_lic_by_lang_idx : ℕ → ℤ
get_lic_by_lang_idx lang_idx =
    if leb num_langs lang_idx then minus 1 else pos (code_at li_codes lang_idx)

unfoldable pub get_lang_idx_from_lic : ℕ → ℤ
unfolding find_index
get_lang_idx_from_lic lic = find_index (λ e. e.code == lic) li_codes 0

unfoldable pub get_pty_name : ℕ → String
get_pty_name pty = if leb 32 pty then "" else get_or pty_codes pty ""
