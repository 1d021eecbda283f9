-- ===== src/Scheduler/Total.antt =====
-- `rds_get_next_group` always returns, and on a valid state it never fails while the clock works.
use jmpxrds.Base.{
  ℕ, suc, some, Bool-cases, false, leb, ◌==◌, if◌then◌else◌, ◌≡◌, ◌⊎◌, inl, inr, refl, ap,
}
use mathlib.Core.Option
use jmpxrds.Base.Int.{negsuc}
use jmpxrds.Modulation.{Group}
use jmpxrds.Config.State.{State}
use jmpxrds.Group.{generate_group}
use jmpxrds.Group.Clock.{Time}
use jmpxrds.Group.Fill.{Filled, Statics}
use jmpxrds.Scheduler.{
  Slot, send, send_ptyn, restart, next_slot, count_group, clock_group, get_next_group, bump_ptyn,
  groups_per_min,
}

-- The counter as the restart leaves it for the inner call.
abbrev pub restarted : Statics → Statics
restarted s = record s { groups_per_sec_counter = negsuc 0 }

-- What a second starts with.
abbrev pub first_group : State → Statics → Time → Group → Filled
first_group st s time g =
    if st.ps_set == 0
    then generate_group st s time g 15 1
    else (if st.af_set == 0 then generate_group st s time g 0 1 else generate_group st s time g 0 0)

-- The function without its recursion: after a restart the inner call makes a first group, and both
-- calls count it.
unfoldable pub next_group : State → Statics → Time → Group → Filled
next_group st s time g =
    if leb groups_per_min s.groups_per_min_counter
    then clock_group st s time g
    else elim (next_slot st s) [
      | send code version ↦ count_group (generate_group st s time g code version)
      | send_ptyn ↦ count_group (bump_ptyn (generate_group st s time g 10 0))
      | restart ↦ count_group (count_group (first_group st (restarted s) time g))
    ]

-- The inner call: it does not restart again.
inner-call :
    (f : ℕ) (st : State) (s : Statics) (time : Time) (g : Group)
    → leb groups_per_min s.groups_per_min_counter ≡ false
    → get_next_group (suc f) st (restarted s) time g
      ≡ some (count_group (first_group st (restarted s) time g))
unfolding get_next_group next_slot
inner-call f st s time g e = rw e (elim (Bool-cases (st.ps_set == 0)) [
  | inl z ↦ rw z refl
  | inr o ↦ elim (Bool-cases (st.af_set == 0)) [ inl z ↦ rw (o, z) refl | inr o' ↦ rw (o, o') refl ]
])

pub Slot-cases :
    (x : Slot) → ((c : ℕ) × (v : ℕ) × (x ≡ send c v)) ⊎ ((x ≡ send_ptyn) ⊎ (x ≡ restart))
Slot-cases (send c v) = inl (c, v, refl)
Slot-cases send_ptyn = inr (inl refl)
Slot-cases restart = inr (inr refl)

-- The recursion is one call deep at most: two rounds of fuel give a result, which more fuel does
-- not change and which the function without recursion gives too.
pub get_next_group-eq :
    (f : ℕ) (st : State) (s : Statics) (time : Time) (g : Group)
    → get_next_group (suc (suc f)) st s time g ≡ some (next_group st s time g)
unfolding get_next_group next_group
get_next_group-eq f st s time g = elim (Bool-cases (leb groups_per_min s.groups_per_min_counter)) [
  | inl late ↦ rw late refl
  | inr early ↦ rw early (elim (Slot-cases (next_slot st s)) [
    | inl (c, v, e) ↦ rw e refl
    | inr (inl e) ↦ rw e refl
    | inr (inr e) ↦ rw e (ap (Option.map count_group) (inner-call f st s time g early))
  ])
]
