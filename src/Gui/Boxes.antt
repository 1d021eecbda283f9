-- ===== src/Gui/Boxes.antt =====
-- A box and the field behind it: what a click does to the state, and what the polling does to the box.
use jmpxrds.Base.{
  ℕ, bit_and, Option, some, Bool, true, false, not, ◌&&◌, ◌||◌, ◌==◌, ==_iff, if◌then◌else◌, ◌≡◌,
  refl, ap, ◌∙◌, sym, arith, Bool-cases, inl, inr,
}
use jmpxrds.Config.State.{State, get_ta, set_ta, get_tp, set_tp, get_ms, set_ms, get_di, set_di}
use jmpxrds.Config.Valid.{IsValid}
use jmpxrds.Gui.Checkbox.{
  BoxField, field_ta, field_tp, field_ms, field_di, getter, setter, Checkbox, agrees,
  checkbox_toggled, set_active, Target, checkbox_poll,
}
use jmpxrds.Gui.Masks.{panel_mask, value, put, with_bit, width, stored, split, test-holds}

getter-value : (f : BoxField) (st : State) → getter f (some st) ≡ value f st
unfolding getter get_ta get_tp get_ms get_di
getter-value field_ta st = refl
getter-value field_tp st = refl
getter-value field_ms st = refl
getter-value field_di st = refl

setter-put :
    (f : BoxField) (n : ℕ) (st : State)
    → setter f (some st) n ≡ some (put f (bit_and n (width f)) st)
unfolding setter set_ta set_tp set_ms set_di
setter-put field_ta n st = refl
setter-put field_tp n st = refl
setter-put field_ms n st = refl
setter-put field_di n st = refl

put-same : (f : BoxField) (st : State) → put f (value f st) st ≡ st
put-same field_ta st = refl
put-same field_tp st = refl
put-same field_ms st = refl
put-same field_di st = refl

put-value : (f : BoxField) (n : ℕ) (st : State) → value f (put f n st) ≡ n
put-value field_ta n st = refl
put-value field_tp n st = refl
put-value field_ms n st = refl
put-value field_di n st = refl

checkbox_toggled-stored :
    (b : Checkbox) (st : State)
    → checkbox_toggled b (some st)
      ≡ some (put b.field (stored (width b.field) b.mask b.active (value b.field st)) st)
unfolding checkbox_toggled
checkbox_toggled-stored b st =
    rw (getter-value b.field st)
      (elim (Bool-cases (agrees (bit_and (value b.field st) b.mask) b.active)) [
        | inl same ↦ rw same (ap some (sym (put-same b.field st)))
        | inr differs ↦ rw differs (elim (Bool-cases b.active) [
          | inl on ↦ rw on (setter-put b.field _ st)
          | inr off ↦ rw off (setter-put b.field _ st)
        ])
      ])

checkbox_toggled-put :
    (b : Checkbox) (st : State)
    → panel_mask b.field b.mask ≡ true
    → IsValid st
    → checkbox_toggled b (some st)
      ≡ some (put b.field (with_bit b.active b.mask (value b.field st)) st)
checkbox_toggled-put b st h v =
    checkbox_toggled-stored b st
    ∙ ap (λ n. some (put b.field n st))
        ((==_iff _ _).0 (split _ _ (test-holds b.field b.mask b.active st h v)).0)

abbrev pub Polled : Type 0
Polled = Bool × (Checkbox × Option State)

-- What a poll does: it goes on exactly while the target is a toggle button, the state stays as it
-- was, and a box that is seen and has no focus agrees with it.
pub record IsPolled (t : Target) (b : Checkbox) (st : State) (r : Polled) : Type 0 where
  goes_on : r.0 ≡ t.is_toggle_button
  state_kept : (r.1).1 ≡ some st
  shown : (r.1).0 ≡ (
      if t.is_toggle_button && t.is_visible && not t.has_focus
      then record b { active = not (bit_and (value b.field st) b.mask == 0) }
      else b)

-- What a click does: the box turns, its bit in the state is the box, the field's other bits and all
-- else stay, and no poll afterwards changes the box.
pub record IsClicked (b : Checkbox) (st : State) (r : Checkbox × Option State) : Type 0 where
  turned : r.0 ≡ record b { active = not b.active }
  bit_set : r.1 ≡ some (put b.field (with_bit (not b.active) b.mask (value b.field st)) st)
  settled :
      (t : Target)
      → (checkbox_poll t (record b { active = not b.active }) r.1).1
        ≡ (record b { active = not b.active }, r.1)

branches-eq :
    (p q : Bool) (x : Checkbox × Option State)
    → (let y : Polled = (if not p then (false, x) else if q then (true, x) else (true, x)) in y)
      ≡ (p, x)
branches-eq true true x = refl
branches-eq true false x = refl
branches-eq false q x = refl

-- A poll of a box that agrees with the state.
settles :
    (t : Target) (b : Checkbox) (st : State)
    → agrees (bit_and (value b.field st) b.mask) b.active ≡ true
    → checkbox_poll t b (some st) ≡ (t.is_toggle_button, (b, some st))
unfolding checkbox_poll
settles t b st h =
    rw (getter-value b.field st)
      (rw h (branches-eq t.is_toggle_button (not t.is_visible || t.has_focus) (b, some st)))

turns :
    (b : Checkbox) (s : Option State)
    → let b' : Checkbox = record b { active = not b.active } in
      set_active (not b.active) b s ≡ (b', checkbox_toggled b' s)
unfolding set_active
turns b s = elim (Bool-cases b.active) [ inl on ↦ rw on refl | inr off ↦ rw off refl ]

abbrev clicked : Checkbox → State → State
clicked b st = put b.field (with_bit (not b.active) b.mask (value b.field st)) st

clicked-agrees :
    (b : Checkbox) (st : State)
    → panel_mask b.field b.mask ≡ true
    → IsValid st
    → agrees (bit_and (value b.field (clicked b st)) b.mask) (not b.active) ≡ true
clicked-agrees b st h v =
    rw (put-value b.field (with_bit (not b.active) b.mask (value b.field st)) st)
      (split _ _ (test-holds b.field b.mask (not b.active) st h v)).1

click-IsClicked :
    (b : Checkbox) (st : State)
    → panel_mask b.field b.mask ≡ true
    → IsValid st
    → IsClicked b st (set_active (not b.active) b (some st))
click-IsClicked b st h v = rw (turns b (some st)) (
    rw (checkbox_toggled-put (record b { active = not b.active }) st h v) (record {
      turned = refl;
      bit_set = refl;
      settled = λ t.
          ap (λ (r : Polled). r.1)
            (settles t (record b { active = not b.active }) _ (clicked-agrees b st h v));
    }))

keeps :
    (b : Checkbox) (st : State)
    → agrees (bit_and (value b.field st) b.mask) b.active ≡ true
    → checkbox_toggled b (some st) ≡ some st
unfolding checkbox_toggled
keeps b st h = rw (getter-value b.field st) (rw h refl)

opposite : (n : ℕ) (a : Bool) → agrees n a ≡ false → not (n == 0) ≡ not a
opposite n true h = ground arith
opposite n false h = ground arith

opposite-agrees : (n : ℕ) (a : Bool) → agrees n a ≡ false → agrees n (not a) ≡ true
opposite-agrees n true h = ground arith
opposite-agrees n false h = ground arith

-- The value that a poll gives a box that is seen and does not agree with the state.
follows :
    (b : Checkbox) (st : State)
    → agrees (bit_and (value b.field st) b.mask) b.active ≡ false
    → set_active (not (bit_and (value b.field st) b.mask == 0)) b (some st)
      ≡ (record b { active = not b.active }, some st)
follows b st h = rw (opposite (bit_and (value b.field st) b.mask) b.active h) (
    turns b (some st)
    ∙ ap (λ (s : Option State). (record b { active = not b.active }, s))
        (keeps (record b { active = not b.active }) st
          (opposite-agrees (bit_and (value b.field st) b.mask) b.active h)))

-- A poll of a box that does not agree with the state.
abbrev corrected : Target → Checkbox → Checkbox
corrected t b =
    if t.is_toggle_button && t.is_visible && not t.has_focus
    then record b { active = not b.active }
    else b

late-branches :
    (p q r : Bool) (b b' : Checkbox) (s : Option State)
    → (let y : Polled =
          (if not p
            then (false, (b, s))
            else if not q || r
            then (true, (b, s))
            else (true, (b', s))) in
        y)
      ≡ (p, (if p && q && not r then b' else b, s))
late-branches true true true b b' s = refl
late-branches true true false b b' s = refl
late-branches true false r b b' s = refl
late-branches false q r b b' s = refl

corrects :
    (t : Target) (b : Checkbox) (st : State)
    → agrees (bit_and (value b.field st) b.mask) b.active ≡ false
    → checkbox_poll t b (some st) ≡ (t.is_toggle_button, (corrected t b, some st))
unfolding checkbox_poll
corrects t b st h = rw (getter-value b.field st) (
    rw h (
      rw (follows b st h) (
        late-branches t.is_toggle_button t.is_visible t.has_focus b
          (record b { active = not b.active }) (some st))))

agrees-not : (n : ℕ) (a : Bool) → agrees n a ≡ true → a ≡ not (n == 0)
agrees-not n true h = ground arith
agrees-not n false h = ground arith

shown_same :
    (q : Bool) (b : Checkbox) (a : Bool)
    → b.active ≡ a
    → b ≡ (if q then record b { active = a } else b)
shown_same true b a e = ap (λ (x : Bool). record b { active = x }) e
shown_same false b a e = refl

poll-IsPolled :
    (t : Target) (b : Checkbox) (st : State) → IsPolled t b st (checkbox_poll t b (some st))
poll-IsPolled t b st = elim (Bool-cases (agrees (bit_and (value b.field st) b.mask) b.active)) [
  | inl same ↦ rw (settles t b st same) (record {
    goes_on = refl;
    state_kept = refl;
    shown =
        shown_same (t.is_toggle_button && t.is_visible && not t.has_focus) b
          (not (bit_and (value b.field st) b.mask == 0))
          (agrees-not (bit_and (value b.field st) b.mask) b.active same);
  })
  | inr differs ↦ rw (corrects t b st differs) (record {
    goes_on = refl;
    state_kept = refl;
    shown = rw (opposite (bit_and (value b.field st) b.mask) b.active differs) refl;
  })
]

-- A box of the panel (gui/jmrg_checkbox.c) for a bit of the switches or of the decoder information.
-- A click, on a valid state, turns the box; then the bit in the state is the box, the field's other
-- bits and all else in the state stay, and no poll afterwards changes anything. A poll goes on
-- exactly while its target is a toggle button and never changes the state, although it runs the
-- handler of a click when it turns the box; a box that is seen and has no focus is then on exactly if
-- its bit is, and any other box is as it was.
pub checkbox-IsInStep :
    (t : Target) (b : Checkbox) (st : State)
    → panel_mask b.field b.mask ≡ true
    → IsValid st
    → IsClicked b st (set_active (not b.active) b (some st))
      × IsPolled t b st (checkbox_poll t b (some st))
checkbox-IsInStep t b st h v = (click-IsClicked b st h v, poll-IsPolled t b st)
