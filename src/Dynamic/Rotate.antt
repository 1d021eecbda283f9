-- ===== src/Dynamic/Rotate.antt =====
-- What a receiver sees of a dynamic RadioText, and what holds of its state at all times.
use jmpxrds.Base.{
  ℕ, zero, suc, ◌+◌, ◌%◌, ◌<◌, List, [], ◌∷◌, Option, none, some, Bool-cases, true, false, inl, inr,
  get_or, get_elem?, ◌==◌, leb, not, if◌then◌else◌, ◌≡◌, ◌≢◌, refl, sym, ap, ◌∙◌, arith,
}
use native.Mathlib.Nat.{mod-add-mod, mod-eq_of_lt, mod_self}
use jmpxrds.Config.State.{State}
use jmpxrds.Config.Text.{strnlen, set_rt}
use jmpxrds.Config.Segments.{rt_field, segments, set_rt-stored}
use jmpxrds.Dynamic.Radiotext.{DynRt, rotate_pass, next_segment}

-- The state of the RadioText after a text that is not empty.
abbrev pub with_rt : State → List ℕ → State
with_rt st s = record st {
  rt = rt_field s;
  rt_set = 1;
  rt_idx = 0;
  rt_segments = segments (strnlen s 64);
  rt_flush = if not (st.rt_set == 0) then (if st.rt_flush == 0 then 1 else 0) else st.rt_flush;
}

-- The RadioText after each of `n` passes of the consumer.
unfoldable pub turns : ℕ → DynRt → State → List (List ℕ)
turns zero drt st = []
turns (suc n) drt st =
    let (drt', st') = rotate_pass drt (some st) in
    elim st' [ none ↦ [] | some s ↦ s.rt ∷ turns n drt' s ]

abbrev pub AreTexts : DynRt → Type 0
AreTexts drt = (i : ℕ) → i < drt.num_segments → strnlen (get_or drt.rt_segments i []) 64 ≢ 0

set_rt-text :
    (st : State) (s : List ℕ)
    → strnlen s 64 ≢ 0
    → (set_rt (some st) (some s) true).0 ≡ some (with_rt st s)
set_rt-text st s h =
    let full : (strnlen s 64 == 0) ≡ false = ground (arith, h) in
    ap (λ r. r.0) (set_rt-stored st s true) ∙ rw full refl

rotate_pass-shows :
    (drt : DynRt) (st : State)
    → 0 < drt.num_segments
    → AreTexts drt
    → rotate_pass drt (some st) ≡ (
      record drt { curr_segment = next_segment drt + 1 },
      some (with_rt st (get_or drt.rt_segments (next_segment drt) [])),
    )
unfolding rotate_pass
rotate_pass-shows drt st some_segments texts =
    let some_here : (drt.num_segments == 0) ≡ false = ground (arith, some_segments) in
    rw some_here (
      ap (λ r. (record drt { curr_segment = next_segment drt + 1 }, r))
        (set_rt-text st (get_or drt.rt_segments (next_segment drt) [])
          (texts (next_segment drt) (ground (arith, some_segments)))))

after_turn : ℕ → DynRt × Option State → List (List ℕ)
after_turn k r = elim (r.1) [ none ↦ [] | some s ↦ s.rt ∷ turns k (r.0) s ]

next_place :
    (drt : DynRt)
    → 0 < drt.num_segments
    → next_segment (record drt { curr_segment = next_segment drt + 1 })
      ≡ (next_segment drt + 1) % drt.num_segments
next_place drt h = elim (Bool-cases (leb drt.num_segments (next_segment drt + 1))) [
  | inl e ↦
      rw e (sym (ap (λ (i : ℕ). i % drt.num_segments) (exact_end e) ∙ mod_self drt.num_segments))
  | inr n ↦ rw n (sym (mod-eq_of_lt (ground (arith, n))))
]
  where
    exact_end :
        leb drt.num_segments (next_segment drt + 1) ≡ true → next_segment drt + 1 ≡ drt.num_segments
    exact_end e = ground (arith, e, h)

-- While every segment that was read is a text, the consumer's passes show the segments in turn: the
-- pass `j` after the one that comes to segment `p` shows the segment `p + j`, modulo their number.
pub turns-cycle :
    (k j : ℕ) (drt : DynRt) (st : State)
    → 0 < drt.num_segments
    → AreTexts drt
    → j < k
    → get_elem? (turns k drt st) j
      ≡ some (rt_field (get_or drt.rt_segments ((next_segment drt + j) % drt.num_segments) []))
unfolding turns after_turn
turns-cycle zero j drt st some_segments texts h = absurd (omega (arith, h))
turns-cycle (suc k) zero drt st some_segments texts h =
    ap (λ r. get_elem? (after_turn k r) 0) (rotate_pass-shows drt st some_segments texts)
    ∙ ap (λ (i : ℕ). some (rt_field (get_or drt.rt_segments i [])))
        (sym (mod-eq_of_lt (ground (arith, some_segments)))
          ∙ ap (λ (i : ℕ). i % drt.num_segments) (omega arith))
turns-cycle (suc k) (suc j) drt st some_segments texts h =
    let drt' : DynRt = record drt { curr_segment = next_segment drt + 1 } in
    let s : State = with_rt st (get_or drt.rt_segments (next_segment drt) []) in
    ap (λ r. get_elem? (after_turn k r) (suc j)) (rotate_pass-shows drt st some_segments texts)
    ∙ turns-cycle k j drt' s some_segments texts (omega (arith, h))
    ∙ ap (λ (i : ℕ). some (rt_field (get_or drt.rt_segments i [])))
        (ap (λ (i : ℕ). (i + j) % drt.num_segments) (next_place drt some_segments)
          ∙ mod-add-mod (next_segment drt + 1) drt.num_segments j
          ∙ ap (λ (i : ℕ). i % drt.num_segments) (omega arith))
