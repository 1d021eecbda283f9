-- ===== src/Tests/Radiotext.antt =====
-- The dynamic RadioText and the life of both dynamic texts at concrete inputs.
use jmpxrds.Base.{
  ℕ, List, [], ◌∷◌, ◌++◌, ◌≡◌, refl, arith, replicate, zero, suc, ◌+◌, Option, some, get_elem?, ◌<◌,
  get_or, true, false,
}
use jmpxrds.Base.Int.{pos}
use jmpxrds.Config.Text.{strnlen}
use jmpxrds.Config.Segments.{rt_field}
use jmpxrds.Config.State.{State}
use jmpxrds.Dynamic.Sanitize.{is_space, sanitize}
use jmpxrds.Dynamic.Trim.{AllSpaces}
use jmpxrds.Dynamic.Clean.{IsText, sanitize-keeps}
use jmpxrds.Dynamic.Radiotext.{DynRt, Line, filemon_pass, rotate_pass}
use jmpxrds.Dynamic.Rotate.{turns, turns-cycle, AreTexts}
use jmpxrds.Dynamic.Keeps.{IsSound, reads, turns_over, here, next, Reach-IsSound}
use jmpxrds.Dynamic.Filemon.{WatchAnswers}
use jmpxrds.Tests.Data.{state_1, state_1-IsValid}

-- " AB \n"
abbrev line_1 : List ℕ
line_1 = 32 ∷ 65 ∷ 66 ∷ 32 ∷ 10 ∷ []

-- The line and the end of its string.
abbrev string_1 : List ℕ
string_1 = line_1 ++ 0 ∷ 0 ∷ []

before_1 : AllSpaces string_1 0 1
unfolding is_space
before_1 zero x y = refl
before_1 (suc i) x y = absurd (omega (arith, y))

after_1 : AllSpaces string_1 3 5
unfolding is_space
after_1 zero x y = absurd (omega (arith, x))
after_1 (suc zero) x y = absurd (omega (arith, x))
after_1 (suc (suc zero)) x y = absurd (omega (arith, x))
after_1 (suc (suc (suc zero))) x y = refl
after_1 (suc (suc (suc (suc zero)))) x y = refl
after_1 (suc (suc (suc (suc (suc i))))) x y = absurd (omega (arith, y))

string_1-IsText : IsText string_1 (strnlen string_1 64) 1 3
unfolding strnlen is_space
string_1-IsText = record {
  some_text = omega arith;
  within = omega arith;
  before = before_1;
  first = refl;
  last = refl;
  after = after_1;
}

sanitize-keeps_example :
    ((sanitize string_1 64).0 ≡ pos 2)
    × ((i : ℕ) → i < 2 → get_or (sanitize string_1 64).1 i 0 ≡ get_or string_1 (1 + i) 0)
unfolding strnlen
sanitize-keeps_example = sanitize-keeps string_1 64 1 3 string_1-IsText

abbrev drt_1 : DynRt
drt_1 = record {
  rt_segments = replicate 3 (replicate 65 0);
  fixed_rt = replicate 65 0;
  curr_segment = 0;
  num_segments = 0;
}

abbrev file_1 : Option (List Line)
file_1 = some (record { text = line_1; rest = 0 ∷ [] } ∷ [])

drt_1-IsSound : IsSound (drt_1, some state_1)
drt_1-IsSound = (
  record {
    few = omega arith;
    three = refl;
    sized = (refl, (refl, (refl, tt)));
    place = omega arith;
  },
  state_1-IsValid,
)

abbrev drt_2 : DynRt
drt_2 = record {
  rt_segments = (65 ∷ 66 ∷ []) ∷ (67 ∷ []) ∷ [] ∷ [];
  fixed_rt = [];
  curr_segment = 2;
  num_segments = 2;
}

drt_2-AreTexts : AreTexts drt_2
unfolding strnlen
drt_2-AreTexts zero h = λ e. absurd (omega (arith, e))
drt_2-AreTexts (suc zero) h = λ e. absurd (omega (arith, e))
drt_2-AreTexts (suc (suc i)) h = absurd (omega (arith, h))

turns-cycle_example : get_elem? (turns 4 drt_2 state_1) 3 ≡ some (rt_field (67 ∷ []))
turns-cycle_example = turns-cycle 4 3 drt_2 state_1 (omega arith) drt_2-AreTexts (omega arith)

abbrev answers_3 : WatchAnswers
answers_3 = record { inotify_fd = pos 5; watch_fd = pos 1; filemon_ok = true; consumer_ok = false }

abbrev drt_3 : DynRt × Option State
drt_3 = filemon_pass file_1 drt_1 (some state_1)

Reach-IsSound_example : IsSound (rotate_pass drt_3.0 drt_3.1)
unfolding filemon_pass
Reach-IsSound_example =
    Reach-IsSound
      (next (next here (reads file_1 drt_1 (some state_1))) (turns_over drt_3.0 drt_3.1))
      drt_1-IsSound
