-- ===== src/Scheduler/Cycle.antt =====
-- The order of the groups: what twelve calls of `rds_get_next_group` send while every text is set.
use jmpxrds.Base.{
  ℕ, zero, suc, ◌+◌, ◌%◌, ◌/◌, ◌^◌, ◌≤◌, ◌<◌, List, [], ◌∷◌, get_or, length, ◌*◌, ==_iff,
  Bool-cases, false, ltb, leb, ◌==◌, if◌then◌else◌, ◌≡◌, ◌⊎◌, inl, inr, refl, ap, ap₂, ◌∙◌, arith,
}
use jmpxrds.Base.Int.{ℤ, pos}
use jmpxrds.Modulation.{Group}
use jmpxrds.Config.State.{State}
use jmpxrds.Config.Valid.{IsValid}
use jmpxrds.Group.Clock.{Tm}
use jmpxrds.Group.Fill.{Filled, Statics}
use jmpxrds.Group.Layout.{infowords}
use jmpxrds.Scheduler.{send, send_ptyn, restart, next_slot, count_group, groups_per_min, next_sec}
use jmpxrds.Scheduler.Steps.{
  Made, flags, read_clock, group_0a-Made, group_0b-Made, group_1a-Made, group_2a-Made,
  group_10a-Made,
}
use jmpxrds.Scheduler.Total.{next_group}
use jmpxrds.Scheduler.Success.{
  Counted, count_group-Counted, count_ptyn-Counted, count_again, Made-first,
}

-- The type of the group at each value of the second's counter, from 1 on.
abbrev pub type_at : ℕ → ℕ
type_at k = if ltb k 4 then 0 else (if ltb k 5 then 1 else (if ltb k 7 then 10 else 2))

-- PS, a country or language code, PTYN and RT are set.
pub record AllSet (st : State) : Type 0 where
  pub ps_is : st.ps_set ≡ 1
  pub label_is : (st.ecc_set ≡ 1) ⊎ (st.lic_set ≡ 1)
  pub ptyn_is : st.ptyn_set ≡ 1
  pub rt_is : st.rt_set ≡ 1

-- The second's counter stands at `k`, with `n` groups counted in the minute.
pub record Stands (st : State) (s : Statics) (k n : ℕ) : Type 0 where
  pub valid : IsValid st
  pub all_set : AllSet st
  pub sec_is : s.groups_per_sec_counter ≡ pos k
  pub min_is : s.groups_per_min_counter ≡ n
  pub ptyn_is : s.ptyn_cnt ≡ (if k == 6 then 1 else 0)

-- The types of the groups that calls in a row send, each with its own clock.
unfoldable pub run : List (Tm × Tm) → State → Statics → Group → List ℕ
run [] st s g = []
run ((utc, here) ∷ ts) st s g =
    let r = next_group st s (read_clock utc here) g in
    get_or (infowords r.group) 1 0 / 4096 ∷ run ts r.st r.statics r.group

AllSet-flags : {st st' : State} → flags st' ≡ flags st → AllSet st → AllSet st'
AllSet-flags {st} {st'} e a = record {
  ps_is = ap (λ q. q.0) e ∙ a.ps_is;
  label_is = label;
  ptyn_is = ap (λ q. q.4) e ∙ a.ptyn_is;
  rt_is = ap (λ q. q.5) e ∙ a.rt_is;
}
  where
    from : (st.ecc_set ≡ 1) ⊎ (st.lic_set ≡ 1) → (st'.ecc_set ≡ 1) ⊎ (st'.lic_set ≡ 1)
    from (inl p) = inl (ap (λ q. q.2) e ∙ p)
    from (inr p) = inr (ap (λ q. q.3) e ∙ p)

    label : (st'.ecc_set ≡ 1) ⊎ (st'.lic_set ≡ 1)
    label = from a.label_is

module _ {st : State} {s : Statics} {k n : ℕ} (h : Stands st s k n) where
  -- What the ladder chooses.
  slot-0 : k < 4 → next_slot st s ≡ (if st.af_set == 0 then send 0 1 else send 0 0)
  unfolding next_slot
  slot-0 e = rw (h.sec_is, h.all_set.ps_is) (ground arith)

  slot-1 : k ≡ 4 → next_slot st s ≡ send 1 0
  unfolding next_slot
  slot-1 e = rw (h.sec_is, e) (ground (arith, h.all_set.label_is))

  slot-10 : 4 < k → k < 7 → next_slot st s ≡ send_ptyn
  unfolding next_slot
  slot-10 a b = rw (h.sec_is, h.all_set.ptyn_is, h.ptyn_is) (ground arith)

  slot-2 : 6 < k → k < 12 → next_slot st s ≡ send 2 0
  unfolding next_slot
  slot-2 a b = rw (h.sec_is, h.all_set.rt_is) (ground arith)

  slot-restart : k ≡ 12 → next_slot st s ≡ restart
  unfolding next_slot
  slot-restart e = rw (h.sec_is, e) refl

Stands-Counted :
    {st : State} {sec : ℤ} {min_was ptyn code k n : ℕ} {r : Filled}
    → Counted st sec min_was ptyn code r
    → AllSet st
    → next_sec sec ≡ pos k
    → (min_was + 1) % 2 ^ 16 ≡ n
    → (if leb 2 ptyn then 0 else ptyn) ≡ (if k == 6 then 1 else 0)
    → Stands r.st r.statics k n
Stands-Counted {st} {r} c a x y z = record {
  valid = c.valid;
  all_set = AllSet-flags {st = st} {st' = r.st} c.same_flags a;
  sec_is = c.sec_is ∙ x;
  min_is = c.min_is ∙ y;
  ptyn_is = c.ptyn_is ∙ z;
}

-- A call sent this type and moved the counters so.
record Moved (r : Filled) (code k n : ℕ) : Type 0 where
  sent : get_or (infowords r.group) 1 0 / 4096 ≡ code
  stands : Stands r.st r.statics k n

module _ {st : State} {s : Statics} {k n : ℕ} (utc here : Tm) (g : Group) (h : Stands st s k n)
    (early : n < 720) where
  not_late : leb groups_per_min s.groups_per_min_counter ≡ false
  not_late = ground (arith, h.min_is)

  advance :
      {c : ℕ} {r : Filled} (ptyn : ℕ)
      → Counted st s.groups_per_sec_counter s.groups_per_min_counter ptyn c r
      → k < 12
      → (if leb 2 ptyn then 0 else ptyn) ≡ (if suc k == 6 then 1 else 0)
      → Moved r c (suc k) (suc n)
  advance ptyn c small e = record {
    sent = c.type_is;
    stands =
        Stands-Counted c h.all_set (ap next_sec h.sec_is ∙ ground arith) (omega (arith, h.min_is))
          e;
  }

  advance_plain :
      {c : ℕ} {r : Filled}
      → Made st s c r
      → k < 12
      → (k < 5) ⊎ (7 ≤ k)
      → Moved (count_group r) c (suc k) (suc n)
  advance_plain m small e =
      advance s.ptyn_cnt (count_group-Counted m) small (ground (arith, h.ptyn_is))

  step-0 : k < 4 → Moved (next_group st s (read_clock utc here) g) 0 (suc k) (suc n)
  unfolding next_group
  step-0 e = elim (Bool-cases (st.af_set == 0)) [
    | inl z ↦
        rw (not_late, slot-0 h e, z)
          (advance_plain (group_0b-Made st s (read_clock utc here) g h.valid) (omega arith)
            (omega arith))
    | inr z ↦
        rw (not_late, slot-0 h e, z)
          (advance_plain (group_0a-Made st s (read_clock utc here) g h.valid) (omega arith)
            (omega arith))
  ]

  step-1 : k ≡ 4 → Moved (next_group st s (read_clock utc here) g) 1 (suc k) (suc n)
  unfolding next_group
  step-1 e =
      rw (not_late, slot-1 h e)
        (advance_plain (group_1a-Made st s (read_clock utc here) g h.valid) (omega arith)
          (omega arith))

  step-10 : 4 < k → k < 7 → Moved (next_group st s (read_clock utc here) g) 10 (suc k) (suc n)
  unfolding next_group
  step-10 a b =
      rw (not_late, slot-10 h a b)
        (advance ((s.ptyn_cnt + 1) % 2 ^ 8)
          (count_ptyn-Counted (group_10a-Made st s (read_clock utc here) g h.valid)) (omega arith)
          (ground (arith, h.ptyn_is)))

  step-2 : 6 < k → k < 12 → Moved (next_group st s (read_clock utc here) g) 2 (suc k) (suc n)
  unfolding next_group
  step-2 a b =
      rw (not_late, slot-2 h a b)
        (advance_plain (group_2a-Made st s (read_clock utc here) g h.valid) (omega arith)
          (omega arith))

  step-within : k < 12 → Moved (next_group st s (read_clock utc here) g) (type_at k) (suc k) (suc n)
  step-within e = elim (Bool-cases (ltb k 4)) [
    | inl a ↦ rw a (step-0 (ground arith))
    | inr a ↦ elim (Bool-cases (ltb k 5)) [
      | inl b ↦ rw (a, b) (step-1 (ground arith))
      | inr b ↦ elim (Bool-cases (ltb k 7)) [
        | inl c ↦ rw (a, b, c) (step-10 (ground arith) (ground arith))
        | inr c ↦ rw (a, b, c) (step-2 (ground arith) e)
      ]
    ]
  ]

  -- After a restart the one group that is sent is counted twice.
  step-restart : k ≡ 12 → Moved (next_group st s (read_clock utc here) g) 0 1 (suc (suc n))
  unfolding next_group
  step-restart e =
      let c = count_again (count_group-Counted (Made-first st s utc here g h.valid)) in
      rw (not_late, slot-restart h e)
        (record {
          sent = c.type_is ∙ ground (arith, h.all_set.ps_is);
          stands =
              Stands-Counted c h.all_set refl (omega (arith, h.min_is)) (ground (arith, h.ptyn_is));
        })

-- The order of the types: from the counter `k`, so many calls.
unfoldable pub order : ℕ → ℕ → List ℕ
order k zero = []
order k (suc m) = (if k == 12 then 0 else type_at k) ∷ order (if k == 12 then 1 else suc k) m

-- While every text is set, the clock can be read and the minute is not over, the groups come in
-- this order: 0, 0, 0, 0, then 1, then 10, 10, then five groups 2, and again.
pub run-order :
    (ts : List (Tm × Tm)) (k n : ℕ) {st : State} {s : Statics} (g : Group)
    → Stands st s k n
    → k ≤ 12
    → n + 2 * length ts ≤ 720
    → run ts st s g ≡ order k (length ts)
unfolding run order
run-order [] k n g h few e = refl
run-order ((utc, here) ∷ ts) k n g h few e = elim (Bool-cases (k == 12)) [
  | inl last ↦
      let m = step-restart utc here g h (omega arith) ((==_iff k 12).0 last) in
      rw last (ap₂ ◌∷◌ m.sent (run-order ts 1 (suc (suc n)) _ m.stands (omega arith) (omega arith)))
  | inr more ↦
      let m = step-within utc here g h (omega arith) (ground arith) in
      rw more
        (ap₂ ◌∷◌ m.sent (run-order ts (suc k) (suc n) _ m.stands (ground arith) (omega arith)))
]
