-- ===== src/Tests/Tools.antt =====
-- The command-line tools at concrete inputs.
use jmpxrds.Base.{ℕ, ◌-◌, List, [], ◌∷◌, get_or, true, arith}
use jmpxrds.Base.Int.{ℤ, pos}
use jmpxrds.Tool.Rds.{opt_pi, opt_pty, opt_rt, set_field, dynamic_ps, RdsOption, rds_main}
use jmpxrds.Tool.RdsLaws.{IsRun, rds_main-IsRun}
use jmpxrds.Tool.Modulator.{
  FmOption, opt_audio, opt_stereo, opt_preemph, unknown, init_ctl, fmmod_tool,
}
use jmpxrds.Tool.ModulatorLaws.{IsFmRun, fmmod_tool-IsFmRun}
use jmpxrds.Tests.Data.{state_1, state_1-IsValid, text_1}

-- A number of one digit.
abbrev digit : List ℕ → ℤ
digit s = pos (get_or s 0 48 - 48)

abbrev rds_options_1 : List RdsOption
rds_options_1 =
    set_field opt_pi (55 ∷ [])
    ∷ set_field opt_rt text_1
    ∷ dynamic_ps
        (record { inotify_fd = pos 3; watch_fd = pos 1; filemon_ok = true; consumer_ok = true })
    ∷ set_field opt_pty (57 ∷ [])
    ∷ []

rds_main-IsRun_example :
    IsRun
      (λ base s. digit s)
      digit
      rds_options_1
      state_1
      (rds_main (λ base s. digit s) digit (λ st. st) rds_options_1 state_1)
rds_main-IsRun_example =
    rds_main-IsRun (λ base s. digit s) digit (λ st. st) rds_options_1 state_1 (λ st v. v)
      state_1-IsValid

abbrev fm_options_1 : List FmOption
fm_options_1 =
    opt_stereo (50 ∷ [])
    ∷ opt_preemph (49 ∷ [])
    ∷ opt_audio (57 ∷ [])
    ∷ opt_stereo (53 ∷ [])
    ∷ unknown
    ∷ opt_preemph (50 ∷ [])
    ∷ []

fmmod_tool-IsFmRun_example :
    IsFmRun
      (λ n. n)
      digit
      fm_options_1
      (init_ctl (λ n. n) 2)
      (fmmod_tool (λ n. n) digit fm_options_1 (init_ctl (λ n. n) 2))
unfolding init_ctl
fmmod_tool-IsFmRun_example =
    fmmod_tool-IsFmRun (λ n. n) digit fm_options_1 (init_ctl (λ n. n) 2)
      (record { stereo_fits = omega arith; lpf_fits = omega arith; preemph_fits = omega arith })
