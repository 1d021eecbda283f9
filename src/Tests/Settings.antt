-- ===== src/Tests/Settings.antt =====
-- The setters and getters of the state at concrete inputs.
use jmpxrds.Config.Text.{strnlen, set_ps, get_ps, set_ptyn, set_rt}
use jmpxrds.Config.Texts.{printable, field_text, set_ptyn-eq, get_ps-set_ps-eq}
use jmpxrds.Config.Segments.{IsRtField, segments, set_rt-eq}
use jmpxrds.Config.Valid.{Holds, ps, apply, apply-IsValid}
use jmpxrds.Base.{ℕ, List, [], ◌∷◌, ◌++◌, replicate, some, true, ◌≡◌}
use jmpxrds.Base.Int.{pos}
use jmpxrds.Tests.Data.{name_1, state_1, state_1-IsValid, name_1-AreBytes}

set_ptyn-eq_example :
    set_ptyn (some state_1) (some name_1)
    ≡ (some (record state_1 { ptyn = field_text printable 8 name_1; ptyn_flush = 1 }), pos 0)
unfolding strnlen
set_ptyn-eq_example = set_ptyn-eq state_1 name_1 name_1-AreBytes

set_rt-eq_example :
    (field : List ℕ) × IsRtField (replicate 62 65) field
    × (set_rt (some state_1) (some (replicate 62 65)) true
        ≡ (some (record state_1 { rt = field; rt_segments = segments 62; rt_flush = 0 }), pos 0))
unfolding strnlen
set_rt-eq_example = set_rt-eq state_1 (replicate 62 65) true

apply-IsValid_example : Holds (apply (ps (some name_1)) (some state_1)).0
apply-IsValid_example = apply-IsValid (ps (some name_1)) state_1 tt state_1-IsValid

get_ps-set_ps-eq_example :
    (set_ps (some state_1) (some name_1) ≡ (
      some (record state_1 { ps = field_text printable 8 name_1; ps_set = 1; ps_idx = 0 }),
      pos 0,
    ))
    × (get_ps (set_ps (some state_1) (some name_1)).0
        ≡ some (field_text printable 8 name_1 ++ 0 ∷ []))
unfolding strnlen
get_ps-set_ps-eq_example = get_ps-set_ps-eq state_1 name_1 name_1-AreBytes
