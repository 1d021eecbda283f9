-- ===== src/Scheduler.antt =====
-- rds_encoder.c: `rds_get_next_group`, which chooses the type of the next group from the static
-- counters and from what is set, and counts the groups that were made.
pub mod Steps
pub mod Total
pub mod Success
pub mod Cycle
use jmpxrds.Base.{
  ℕ, zero, suc, ◌+◌, ◌*◌, ◌%◌, ◌^◌, Option, none, some, Bool, not, ◌&&◌, ◌||◌, ltb, leb, ◌==◌,
  if◌then◌else◌,
}
use mathlib.Core.Option
use jmpxrds.Base.Int.{ℤ, pos, negsuc, is_neg, ltb_ℤ}
use jmpxrds.Modulation.{Group}
use jmpxrds.Config.State.{State}
use jmpxrds.Group.{generate_group}
use jmpxrds.Group.Clock.{Time}
use jmpxrds.Group.Fill.{Filled, Statics, version_a, version_b}

abbrev pub groups_per_sec : ℕ
groups_per_sec = 12

abbrev pub groups_per_min : ℕ
groups_per_min = groups_per_sec * 60

-- Which branch of the ladder is taken: a group of this type and version, the same with
-- `ptyn_cnt++` after it, or the restart of the second.
pub data Slot : Type 0 where
  send : ℕ → ℕ → Slot
  send_ptyn : Slot
  restart : Slot

unfoldable pub next_slot : State → Statics → Slot
next_slot st s =
    let sec = s.groups_per_sec_counter in
    if ltb_ℤ sec (pos 4)
    then (if st.ps_set == 0
        then send 15 version_b
        else (if st.af_set == 0 then send 0 version_b else send 0 version_a))
    else if ltb_ℤ sec (pos 5) && (not (st.ecc_set == 0) || not (st.lic_set == 0))
    then send 1 version_a
    else if ltb_ℤ sec (pos 7) && not (st.ptyn_set == 0) && ltb s.ptyn_cnt 2
    then send_ptyn
    else if ltb_ℤ sec (pos groups_per_sec) && not (st.rt_set == 0)
    then send 2 version_a
    else restart

-- `groups_per_sec_counter++` on an `int8_t`.
abbrev pub next_sec : ℤ → ℤ
next_sec (pos n) = if n == 127 then negsuc 127 else pos (n + 1)
next_sec (negsuc zero) = pos 0
next_sec (negsuc (suc n)) = negsuc n

-- The end of the function: the counters after a group that was made, and `ptyn_cnt`.
unfoldable pub count_group : Filled → Filled
count_group r =
    let s = r.statics in
    let counted = if is_neg r.ret then s else record s {
      groups_per_sec_counter = next_sec s.groups_per_sec_counter;
      groups_per_min_counter = (s.groups_per_min_counter + 1) % 2 ^ 16;
    } in
    record r { statics = record counted { ptyn_cnt = if leb 2 s.ptyn_cnt then 0 else s.ptyn_cnt } }

abbrev pub bump_ptyn : Filled → Filled
bump_ptyn r = record r {
  statics = record (r.statics) { ptyn_cnt = (r.statics.ptyn_cnt + 1) % 2 ^ 8 };
}

-- The clock group, once a minute.
unfoldable pub clock_group : State → Statics → Time → Group → Filled
clock_group st s time g =
    let r = generate_group st s time g 4 version_a in
    if is_neg r.ret
    then r
    else record r { statics = record (r.statics) { groups_per_min_counter = 0 } }

-- The function calls itself after a restart; `none` means that the fuel ran out.
unfoldable pub get_next_group : ℕ → State → Statics → Time → Group → Option Filled
get_next_group zero st s time g = none
get_next_group (suc fuel) st s time g =
    let again =
      Option.map count_group
        (get_next_group fuel st (record s { groups_per_sec_counter = negsuc 0 }) time g) in
    if leb groups_per_min s.groups_per_min_counter
    then some (clock_group st s time g)
    else elim (next_slot st s) [
      | send code version ↦ some (count_group (generate_group st s time g code version))
      | send_ptyn ↦ some (count_group (bump_ptyn (generate_group st s time g 10 version_a)))
      | restart ↦ again
    ]
