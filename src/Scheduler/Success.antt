-- ===== src/Scheduler/Success.antt =====
-- On a valid state, and while the clock can be read, `rds_get_next_group` never fails, and keeps
-- the state valid and its counters in range.
use jmpxrds.Base.{
  ℕ, suc, ◌+◌, ◌/◌, ◌%◌, ◌^◌, ◌≤◌, ◌<◌, get_or, some, Bool-cases, true, leb, ◌==◌, if◌then◌else◌,
  ◌≡◌, ◌⊎◌, inl, inr, refl, sym, subst, arith,
}
use jmpxrds.Base.Int.{ℤ, pos, negsuc, ltb_ℤ}
use jmpxrds.Modulation.{Group}
use jmpxrds.Config.State.{State}
use jmpxrds.Config.Valid.{IsValid}
use jmpxrds.Group.{generate_group}
use jmpxrds.Group.Clock.{Tm, Time}
use jmpxrds.Group.Fill.{Filled, Statics}
use jmpxrds.Group.Layout.{infowords}
use jmpxrds.Scheduler.{
  send, send_ptyn, next_slot, count_group, clock_group, get_next_group, next_sec, bump_ptyn,
  groups_per_min,
}
use jmpxrds.Scheduler.Steps.{
  Made, group_0a-Made, group_0b-Made, group_1a-Made, group_2a-Made, group_10a-Made, group_15b-Made,
  group_4a-Made, flags, read_clock,
}
use jmpxrds.Scheduler.Total.{next_group, first_group, restarted, get_next_group-eq, Slot-cases}

abbrev pub SecFits : ℤ → Type 0
SecFits (pos n) = n ≤ 12
SecFits (negsuc n) = n ≡ 0

-- The counters between two calls.
pub record IsReady (s : Statics) : Type 0 where
  pub sec_fits : SecFits s.groups_per_sec_counter
  pub min_fits : s.groups_per_min_counter ≤ 721
  pub ptyn_fits : s.ptyn_cnt < 2

-- What a call leaves.
pub record Good (st : State) (r : Filled) : Type 0 where
  pub valid : IsValid r.st
  pub ready : IsReady r.statics
  pub same_flags : flags r.st ≡ flags st
  pub returns : r.ret ≡ pos 0

-- A counted group.
pub record Counted (st : State) (sec : ℤ) (min_was ptyn code : ℕ) (r : Filled) : Type 0 where
  pub valid : IsValid r.st
  pub same_flags : flags r.st ≡ flags st
  pub type_is : get_or (infowords r.group) 1 0 / 4096 ≡ code
  pub sec_is : r.statics.groups_per_sec_counter ≡ next_sec sec
  pub min_is : r.statics.groups_per_min_counter ≡ (min_was + 1) % 2 ^ 16
  pub ptyn_is : r.statics.ptyn_cnt ≡ (if leb 2 ptyn then 0 else ptyn)
  pub returns : r.ret ≡ pos 0

module _ {st : State} {s : Statics} {code : ℕ} {r : Filled} (m : Made st s code r) where
  pub count_group-Counted :
      Counted st s.groups_per_sec_counter s.groups_per_min_counter s.ptyn_cnt code (count_group r)
  unfolding count_group
  count_group-Counted =
      rw (m.returns, m.same_sec, m.same_min, m.same_ptyn)
        (record {
          valid = m.valid;
          same_flags = m.same_flags;
          type_is = m.type_is;
          sec_is = refl;
          min_is = refl;
          ptyn_is = refl;
          returns = refl;
        })

  -- With `ptyn_cnt++` before it.
  pub count_ptyn-Counted :
      Counted st s.groups_per_sec_counter s.groups_per_min_counter
        ((s.ptyn_cnt + 1) % 2 ^ 8)
        code
        (count_group (bump_ptyn r))
  unfolding count_group
  count_ptyn-Counted =
      rw (m.returns, m.same_sec, m.same_min, m.same_ptyn)
        (record {
          valid = m.valid;
          same_flags = m.same_flags;
          type_is = m.type_is;
          sec_is = refl;
          min_is = refl;
          ptyn_is = refl;
          returns = refl;
        })

-- A group that both calls count.
pub count_again :
    {st : State} {sec : ℤ} {min_was ptyn code : ℕ} {r : Filled}
    → Counted st sec min_was ptyn code r
    → Counted st
        (next_sec sec)
        ((min_was + 1) % 2 ^ 16)
        (if leb 2 ptyn then 0 else ptyn)
        code
        (count_group r)
unfolding count_group
count_again c =
    rw (c.returns, c.sec_is, c.min_is, c.ptyn_is)
      (record {
        valid = c.valid;
        same_flags = c.same_flags;
        type_is = c.type_is;
        sec_is = refl;
        min_is = refl;
        ptyn_is = refl;
        returns = refl;
      })

pub Counted-Good :
    {st : State} {sec : ℤ} {min_was ptyn code : ℕ} {r : Filled}
    → Counted st sec min_was ptyn code r
    → SecFits (next_sec sec)
    → min_was ≤ 720
    → ptyn ≤ 2
    → Good st r
Counted-Good {sec} {min_was} {ptyn} c fits early few = record {
  valid = c.valid;
  ready = record {
    sec_fits = subst SecFits (sym c.sec_is) fits;
    min_fits = omega (arith, c.min_is);
    ptyn_fits = ground (arith, c.ptyn_is);
  };
  same_flags = c.same_flags;
  returns = c.returns;
}

-- What `rds_generate_group` is called for.
abbrev Known : ℕ → ℕ → Type 0
Known c v =
    ((c ≡ 15) × (v ≡ 1))
    ⊎ ((c ≡ 0) × (v ≡ 1))
    ⊎ ((c ≡ 0) × (v ≡ 0))
    ⊎ ((c ≡ 1) × (v ≡ 0))
    ⊎ ((c ≡ 2) × (v ≡ 0))

send-Known :
    (st : State) (s : Statics) (c v : ℕ)
    → next_slot st s ≡ send c v
    → (ltb_ℤ s.groups_per_sec_counter (pos 12) ≡ true) × Known c v
unfolding next_slot
send-Known st s c v e = ground arith

ptyn-early :
    (st : State) (s : Statics)
    → next_slot st s ≡ send_ptyn
    → (ltb_ℤ s.groups_per_sec_counter (pos 7) ≡ true) × (s.ptyn_cnt < 2)
unfolding next_slot
ptyn-early st s e = ground arith

next_sec-SecFits : (z : ℤ) → SecFits z → ltb_ℤ z (pos 12) ≡ true → SecFits (next_sec z)
next_sec-SecFits z h e = ground arith

module _ (st : State) (s : Statics) (utc here : Tm) (g : Group) (v : IsValid st) where
  abbrev now : Time
  now = read_clock utc here

  Made-Known : (c w : ℕ) → Known c w → Made st s c (generate_group st s now g c w)
  Made-Known c w (inl e) = rw (e.0, e.1) (group_15b-Made st s now g v)
  Made-Known c w (inr (inl e)) = rw (e.0, e.1) (group_0b-Made st s now g v)
  Made-Known c w (inr (inr (inl e))) = rw (e.0, e.1) (group_0a-Made st s now g v)
  Made-Known c w (inr (inr (inr (inl e)))) = rw (e.0, e.1) (group_1a-Made st s now g v)
  Made-Known c w (inr (inr (inr (inr e)))) = rw (e.0, e.1) (group_2a-Made st s now g v)

  -- The group type of a first group.
  abbrev first_type : ℕ
  first_type = if st.ps_set == 0 then 15 else 0

  pub Made-first : Made st (restarted s) first_type (first_group st (restarted s) now g)
  Made-first = elim (Bool-cases (st.ps_set == 0)) [
    | inl z ↦ rw z (group_15b-Made st (restarted s) now g v)
    | inr o ↦ elim (Bool-cases (st.af_set == 0)) [
      | inl z ↦ rw (o, z) (group_0b-Made st (restarted s) now g v)
      | inr o' ↦ rw (o, o') (group_0a-Made st (restarted s) now g v)
    ]
  ]

  clock-Good : IsReady s → Good st (clock_group st s now g)
  unfolding clock_group
  clock-Good ready =
      let m = group_4a-Made st s utc here g v in
      rw m.returns (record {
        valid = m.valid;
        ready = record {
          sec_fits = subst SecFits (sym m.same_sec) ready.sec_fits;
          min_fits = omega arith;
          ptyn_fits = omega (arith, m.same_ptyn, ready.ptyn_fits);
        };
        same_flags = m.same_flags;
        returns = refl;
      })

  next_group-Good : IsReady s → Good st (next_group st s now g)
  unfolding next_group
  next_group-Good ready = elim (Bool-cases (leb groups_per_min s.groups_per_min_counter)) [
    | inl late ↦ rw late (clock-Good ready)
    | inr early ↦ rw early (elim (Slot-cases (next_slot st s)) [
      | inl (c, w, e) ↦ rw e (
          Counted-Good (count_group-Counted (Made-Known c w (send-Known st s c w e).1))
            (next_sec-SecFits s.groups_per_sec_counter ready.sec_fits (send-Known st s c w e).0)
            (ground arith) (omega (arith, ready.ptyn_fits)))
      | inr (inl e) ↦ rw e (
          Counted-Good (count_ptyn-Counted (group_10a-Made st s now g v))
            (next_sec-SecFits s.groups_per_sec_counter ready.sec_fits
              (ground (arith, ptyn-early st s e)))
            (ground arith) (omega (arith, ready.ptyn_fits)))
      | inr (inr e) ↦ rw e (
          Counted-Good (count_again (count_group-Counted Made-first)) (omega arith) (ground arith)
            (ground (arith, ready.ptyn_fits)))
    ])
  ]

  -- On a valid state, with its counters in range and a clock that can be read, a call returns a
  -- group and 0. It leaves a valid state with the same texts set, and its counters in range.
  pub get_next_group-succeeds :
      (f : ℕ)
      → IsReady s
      → (r : Filled) × (get_next_group (suc (suc f)) st s now g ≡ some r) × Good st r
  get_next_group-succeeds f ready =
      (next_group st s now g, get_next_group-eq f st s now g, next_group-Good ready)
