-- ===== src/Tests/Scrolling.antt =====
-- The dynamic PS at a concrete input: the name "ANTENNA1" and the text "HELLO THERE".
use jmpxrds.Base.{ℕ, List, [], ◌∷◌, ◌++◌, replicate}
use jmpxrds.Dynamic.{DynPs}

abbrev text_2 : List ℕ
text_2 = 72 ∷ 69 ∷ 76 ∷ 76 ∷ 79 ∷ 32 ∷ 84 ∷ 72 ∷ 69 ∷ 82 ∷ 69 ∷ []

abbrev name_2 : List ℕ
name_2 = 65 ∷ 78 ∷ 84 ∷ 69 ∷ 78 ∷ 78 ∷ 65 ∷ 49 ∷ []

abbrev dynps_1 : DynPs
dynps_1 = record {
  string = text_2 ++ replicate 54 0;
  fixed_ps = name_2;
  string_len = 11;
  remaining_len = 0;
}
