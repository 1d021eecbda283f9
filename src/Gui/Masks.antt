-- ===== src/Gui/Masks.antt =====
-- The masks of the boxes: what the handler of a click stores is the field with the mask's bit turned.
use jmpxrds.Base.{
  ℕ, ◌+◌, ◌-◌, ◌<◌, bit_and, bit_or, Bool, true, false, not, ◌&&◌, ◌||◌, ◌==◌, if◌then◌else◌, ◌≡◌,
  refl, arith, all_below, all_below_sound,
}
use jmpxrds.Config.State.{State}
use jmpxrds.Config.Valid.{IsValid}
use jmpxrds.Gui.Checkbox.{BoxField, field_ta, field_tp, field_ms, field_di, agrees}

-- The masks that the panel gives to the boxes of a field.
abbrev pub panel_mask : BoxField → ℕ → Bool
panel_mask field_ta m = m == 1
panel_mask field_tp m = m == 1
panel_mask field_ms m = m == 1
panel_mask field_di m = (m == 1) || (m == 2) || (m == 4) || (m == 8)

abbrev pub value : BoxField → State → ℕ
value field_ta st = st.ta
value field_tp st = st.tp
value field_ms st = st.ms
value field_di st = st.di

abbrev pub put : BoxField → ℕ → State → State
put field_ta n st = record st { ta = n }
put field_tp n st = record st { tp = n }
put field_ms n st = record st { ms = n }
put field_di n st = record st { di = n }

-- A number with the bit of the mask on or off, and its other bits.
abbrev pub with_bit : Bool → ℕ → ℕ → ℕ
with_bit true m v = v - bit_and v m + m
with_bit false m v = v - bit_and v m

abbrev pub width : BoxField → ℕ
width field_ta = 1
width field_tp = 1
width field_ms = 1
width field_di = 0xF

-- The number that the handler leaves in the field.
abbrev pub stored : ℕ → ℕ → Bool → ℕ → ℕ
stored w m new v =
    if agrees (bit_and v m) new
    then v
    else if new
    then bit_and (bit_or v m) w
    else bit_and (bit_and v (255 - m)) w

abbrev pub test : ℕ → ℕ → Bool → ℕ → Bool
test w m new v = (stored w m new v == with_bit new m v) && agrees (bit_and (with_bit new m v) m) new

abbrev test_both : BoxField → ℕ → ℕ → Bool
test_both f m v = not (panel_mask f m) || (test (width f) m true v && test (width f) m false v)

switch_table :
    (f : BoxField) → all_below (width f + 1) (λ v. all_below 9 (λ m. test_both f m v)) ≡ true
unfolding all_below
switch_table field_ta = refl
switch_table field_tp = refl
switch_table field_ms = refl
switch_table field_di = refl

mask-lt : (f : BoxField) (m : ℕ) → panel_mask f m ≡ true → m < 9
mask-lt field_ta m h = ground arith
mask-lt field_tp m h = ground arith
mask-lt field_ms m h = ground arith
mask-lt field_di m h = ground arith

value-lt : (f : BoxField) (st : State) → IsValid st → value f st < width f + 1
value-lt field_ta st v = v.ta_flag
value-lt field_tp st v = v.tp_flag
value-lt field_ms st v = v.ms_flag
value-lt field_di st v = v.di_fits

both : (a b c : Bool) → not a || (b && c) ≡ true → a ≡ true → (b ≡ true) × (c ≡ true)
both true true true h e = (refl, refl)
both true true false h e = cc
both true false c h e = cc
both false b c h e = cc

pub split : (a b : Bool) → a && b ≡ true → (a ≡ true) × (b ≡ true)
split true b h = (refl, h)
split false b h = cc

pub test-holds :
    (f : BoxField) (m : ℕ) (new : Bool) (st : State)
    → panel_mask f m ≡ true
    → IsValid st
    → test (width f) m new (value f st) ≡ true
test-holds f m new st h v =
    let row = all_below_sound (width f + 1) _ (value f st) (switch_table f) (value-lt f st v) in
    let cell = all_below_sound 9 _ m row (mask-lt f m h) in
    choose new (both (panel_mask f m) _ _ cell h)
  where
    choose :
        (b : Bool)
        → (test (width f) m true (value f st) ≡ true) × (test (width f) m false (value f st) ≡ true)
        → test (width f) m b (value f st) ≡ true
    choose true p = p.0
    choose false p = p.1
