-- ===== src/Tests/Groups.antt =====
-- The groups and the scheduler at concrete inputs.
use jmpxrds.Group.{generate_group}
use jmpxrds.Group.Clock.{Tm}
use jmpxrds.Group.Fill.{Filled}
use jmpxrds.Group.Layout.{Sends, generate_group_0-Sends}
use jmpxrds.Group.Layout.{at_ps_idx}
use jmpxrds.Group.Texts.{text_groups-Sends}
use jmpxrds.Scheduler.{get_next_group}
use jmpxrds.Scheduler.Total.{next_group, get_next_group-eq}
use jmpxrds.Scheduler.Success.{IsReady, Good, get_next_group-succeeds}
use jmpxrds.Scheduler.Cycle.{Stands, run, order, run-order}
use jmpxrds.Base.{List, [], ◌∷◌, replicate, some, ◌≡◌, refl, inl, arith}
use jmpxrds.Tests.Data.{group_1, state_1, state_1-IsValid, statics_1, utc_1, here_1, time_1}

generate_group_0-Sends_example :
    Sends
      (generate_group state_1 statics_1 time_1 group_1 0 0)
      (0x54A8 ∷ 0x054C ∷ 0x000C ∷ 0x4A4D ∷ [])
      (record (at_ps_idx state_1) { af_idx = 2 })
      statics_1
    × Sends
        (generate_group state_1 statics_1 time_1 group_1 0 1)
        (0x54A8 ∷ 0x0D4C ∷ 0x54A8 ∷ 0x4A4D ∷ [])
        (at_ps_idx state_1)
        statics_1
generate_group_0-Sends_example =
    generate_group_0-Sends state_1 statics_1 time_1 group_1 state_1-IsValid

get_next_group-eq_example :
    get_next_group 2 state_1 statics_1 time_1 group_1
    ≡ some (next_group state_1 statics_1 time_1 group_1)
get_next_group-eq_example = get_next_group-eq 0 state_1 statics_1 time_1 group_1

statics_1-IsReady : IsReady statics_1
statics_1-IsReady = record {
  sec_fits = omega arith;
  min_fits = omega arith;
  ptyn_fits = omega arith;
}

get_next_group-succeeds_example :
    (r : Filled) × (get_next_group 2 state_1 statics_1 time_1 group_1 ≡ some r) × Good state_1 r
get_next_group-succeeds_example =
    get_next_group-succeeds state_1 statics_1 utc_1 here_1 group_1 state_1-IsValid 0
      statics_1-IsReady

state_1-Stands : Stands state_1 statics_1 1 1
state_1-Stands = record {
  valid = state_1-IsValid;
  all_set = record { ps_is = refl; label_is = inl refl; ptyn_is = refl; rt_is = refl };
  sec_is = refl;
  min_is = refl;
  ptyn_is = refl;
}

-- Two seconds.
abbrev times_1 : List (Tm × Tm)
times_1 = replicate 24 (utc_1, here_1)

run-order_example : run times_1 state_1 statics_1 group_1 ≡ order 1 24
run-order_example = run-order times_1 1 1 group_1 state_1-Stands (omega arith) (omega arith)

text_groups-Sends_example :
    Sends
      (generate_group state_1 statics_1 time_1 group_1 2 0)
      (0x54A8 ∷ 0x2550 ∷ 0x4869 ∷ 0x210D ∷ [])
      state_1
      statics_1
    × Sends
        (generate_group state_1 statics_1 time_1 group_1 10 0)
        (0x54A8 ∷ 0xA540 ∷ 0x4D55 ∷ 0x5349 ∷ [])
        (record state_1 { ptyn_idx = 1 })
        statics_1
text_groups-Sends_example = text_groups-Sends state_1 statics_1 time_1 group_1 state_1-IsValid
