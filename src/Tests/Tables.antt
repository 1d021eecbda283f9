-- ===== src/Tests/Tables.antt =====
-- The code tables at concrete inputs.
use jmpxrds.Codes.{
  get_lic_by_lang_idx, get_lang_idx_from_lic, get_lang_idx, get_lang_name, code_at,
  get_ctry_idx_from_ctry_codes, get_ecc_by_ctry_idx,
}
use jmpxrds.Codes.Countries.{ctry_codes}
use jmpxrds.Codes.Languages.{li_codes}
use jmpxrds.Codes.Search.{code_tables-round_trip, first_index}
use jmpxrds.Base.{◌/◌, ◌%◌, ◌≤◌, ◌≡◌, arith}
use jmpxrds.Base.Int.{pos}

code_tables-round_trip_example :
    ((get_lic_by_lang_idx 9 ≡ pos (code_at li_codes 9))
      × (get_lang_idx_from_lic (code_at li_codes 9) ≡ pos 9)
      × (get_lang_idx (get_lang_name 9) ≡ pos 9))
    × ((get_ctry_idx_from_ctry_codes (code_at ctry_codes 5 / 256) (code_at ctry_codes 5 % 256)
          ≡ pos (first_index 5))
        × (first_index 5 ≤ 5)
        × (code_at ctry_codes (first_index 5) ≡ code_at ctry_codes 5)
        × (get_ecc_by_ctry_idx 5 ≡ pos (code_at ctry_codes 5 % 256)))
code_tables-round_trip_example = code_tables-round_trip 9 5 (omega arith) (omega arith)
