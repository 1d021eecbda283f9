-- ===== src/Dynamic/Keeps.antt =====
-- What holds of the dynamic RadioText at all times, whatever the files hold.
use jmpxrds.Base.{
  ℕ, zero, suc, ◌+◌, ◌≤◌, List, [], ◌∷◌, Option, none, some, Bool, Bool-cases, true, false, set,
  length, All, ◌==◌, if◌then◌else◌, ◌≡◌, ◌⊎◌, inl, inr, arith, length-set,
}
use jmpxrds.Base.Int.{pos, negsuc, ℤ-cases}
use jmpxrds.Config.State.{State}
use jmpxrds.Config.Text.{set_rt}
use jmpxrds.Config.Valid.{Holds, rt, apply, apply-IsValid}
use jmpxrds.Dynamic.Radiotext.{
  DynRt, Line, get_line, copy_segment, read_segments, filemon_pass, rotate_pass,
}
use jmpxrds.Dynamic.Bounds.{get_line-le, length-copy_segment}

pub record IsDynRt (drt : DynRt) : Type 0 where
  pub few : drt.num_segments ≤ 3
  pub three : length drt.rt_segments ≡ 3
  pub sized : All (λ s. length s ≡ 65) drt.rt_segments
  pub place : drt.curr_segment ≤ 3

All-set :
    (segments : List (List ℕ)) (i : ℕ) (s : List ℕ)
    → All (λ t. length t ≡ 65) segments
    → length s ≡ 65
    → All (λ t. length t ≡ 65) (set segments i s)
All-set [] i s h e = tt
All-set (t ∷ segments) zero s h e = (e, h.1)
All-set (t ∷ segments) (suc i) s h e = (h.0, All-set segments i s h.1 e)

read_segments-IsDynRt :
    (left : ℕ) (lines : List Line) (drt : DynRt)
    → drt.num_segments + left ≤ 3
    → IsDynRt drt
    → IsDynRt (read_segments left lines drt)
unfolding read_segments
read_segments-IsDynRt zero lines drt fits v = v
read_segments-IsDynRt (suc left) [] drt fits v = v
read_segments-IsDynRt (suc left) (l ∷ lines) drt fits v = by_result (ℤ-cases (get_line l).0) (λ n e.
    read_segments-IsDynRt left lines
      (record drt {
        rt_segments = set drt.rt_segments drt.num_segments (copy_segment n (get_line l).1);
        num_segments = drt.num_segments + 1;
      })
      (omega arith)
      (record {
        few = omega arith;
        three = omega (
          arith,
          length-set drt.rt_segments drt.num_segments (copy_segment n (get_line l).1),
          v.three,
        );
        sized =
            All-set drt.rt_segments drt.num_segments _ v.sized
              (length-copy_segment n _ (get_line-le l n e));
        place = v.place;
      }))
  where
    by_result :
        ((n : ℕ) × ((get_line l).0 ≡ pos n)) ⊎ ((n : ℕ) × ((get_line l).0 ≡ negsuc n))
        → ((n : ℕ)
            → (get_line l).0 ≡ pos n
            → IsDynRt (
                read_segments left lines (record drt {
                  rt_segments =
                      set drt.rt_segments drt.num_segments (copy_segment n (get_line l).1);
                  num_segments = drt.num_segments + 1;
                })))
        → IsDynRt (read_segments (suc left) (l ∷ lines) drt)
    by_result (inl (n, e)) rest = rw (e, read_segments) (rest n e)
    by_result (inr (n, e)) rest = rw (e, read_segments) v

-- The state of the dynamic RadioText and the encoder's.
abbrev pub System : Type 0
System = DynRt × Option State

-- The file monitor wakes up and reads a file, or the consumer wakes up.
pub data Step : System → System → Type 0 where
  reads :
      (file : Option (List Line)) (drt : DynRt) (st : Option State)
      → Step (drt, st) (filemon_pass file drt st)
  turns_over : (drt : DynRt) (st : Option State) → Step (drt, st) (rotate_pass drt st)

pub data Reach (s : System) : System → Type 0 where
  here : Reach s s
  next : {t u : System} → Reach s t → Step t u → Reach s u

abbrev pub IsSound : System → Type 0
IsSound (drt, st) = IsDynRt drt × Holds st

set_rt-Holds : (st : Option State) (s : List ℕ) → Holds st → Holds (set_rt st (some s) true).0
unfolding apply
set_rt-Holds none s h = elim h [ ]
set_rt-Holds (some st) s h = apply-IsValid (rt (some s) true) st tt h

Holds-if : (b : Bool) (s t : Option State) → Holds s → Holds t → Holds (if b then s else t)
Holds-if true s t h g = h
Holds-if false s t h g = g

filemon_pass-IsSound :
    (file : Option (List Line)) (drt : DynRt) (st : Option State)
    → IsSound (drt, st)
    → IsSound (filemon_pass file drt st)
unfolding filemon_pass
filemon_pass-IsSound none drt st h = h
filemon_pass-IsSound (some lines) drt st h =
    let drt' : DynRt = read_segments 3 lines (record drt { num_segments = 0 }) in
    (
      read_segments-IsDynRt 3 lines (record drt { num_segments = 0 }) (omega arith)
          (record { few = omega arith; three = h.0.three; sized = h.0.sized; place = h.0.place }),
      Holds-if (drt'.num_segments == 0) _ st (set_rt-Holds st drt'.fixed_rt h.1) h.1,
    )

rotate_pass-IsSound :
    (drt : DynRt) (st : Option State) → IsSound (drt, st) → IsSound (rotate_pass drt st)
unfolding rotate_pass
rotate_pass-IsSound drt st h = elim (Bool-cases (drt.num_segments == 0)) [
  | inl e ↦ rw (e, rotate_pass) h
  | inr n ↦
      rw (n, rotate_pass)
        (
          record {
            few = h.0.few;
            three = h.0.three;
            sized = h.0.sized;
            place = ground (arith, h.0.few, h.0.place);
          },
          set_rt-Holds st _ h.1,
        )
]

Step-IsSound : {s t : System} → Step s t → IsSound s → IsSound t
Step-IsSound (reads file drt st) h = filemon_pass-IsSound file drt st h
Step-IsSound (turns_over drt st) h = rotate_pass-IsSound drt st h

-- From a sound state, in every order of the two threads' passes and whatever the files hold: at
-- most three segments are counted, each of the three is an array of 65 bytes, the consumer's place
-- is within them, and the encoder's state stays valid.
pub Reach-IsSound : {s t : System} → Reach s t → IsSound s → IsSound t
Reach-IsSound here h = h
Reach-IsSound (next r e) h = Step-IsSound e (Reach-IsSound r h)
