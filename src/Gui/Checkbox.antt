-- ===== src/Gui/Checkbox.antt =====
-- gui/jmrg_checkbox.c: a box for some bits of a field of the encoder's state.
use jmpxrds.Base.{
  ℕ, ◌-◌, bit_and, bit_or, Option, Bool, true, false, not, ◌&&◌, ◌||◌, ◌==◌, if◌then◌else◌,
}
use jmpxrds.Config.State.{State, get_ta, set_ta, get_tp, set_tp, get_ms, set_ms, get_di, set_di}

-- The fields that `jmrg_checkbox_init` has a getter and a setter for.
pub data BoxField : Type 0 where
  field_ta field_tp field_ms field_di : BoxField

unfoldable pub getter : BoxField → Option State → ℕ
getter field_ta st = get_ta st
getter field_tp st = get_tp st
getter field_ms st = get_ms st
getter field_di st = get_di st

unfoldable pub setter : BoxField → Option State → ℕ → Option State
setter field_ta st n = (set_ta st n).0
setter field_tp st n = (set_tp st n).0
setter field_ms st n = (set_ms st n).0
setter field_di st n = (set_di st n).0

-- The box's part of `struct value_map`, with the toggle button's own state.
pub record Checkbox : Type 0 where
  pub field : BoxField
  pub mask : ℕ
  pub active : Bool

-- `(!tmp && !active) || (tmp && active)`.
abbrev pub agrees : ℕ → Bool → Bool
agrees tmp active = ((tmp == 0) && not active) || (not (tmp == 0) && active)

-- `~mask` in eight bits.
unfoldable pub checkbox_toggled : Checkbox → Option State → Option State
checkbox_toggled b st =
    let tmp = getter b.field st in
    if agrees (bit_and tmp b.mask) b.active
    then st
    else if b.active
    then setter b.field st (bit_or tmp b.mask)
    else setter b.field st (bit_and tmp (255 - b.mask))

-- `gtk_toggle_button_set_active`, of GTK: a box that changes runs the handler of its signal "toggled".
unfoldable pub set_active : Bool → Checkbox → Option State → Checkbox × Option State
set_active new b st =
    let b' : Checkbox = record b { active = new } in
    if (new && b.active) || (not new && not b.active) then (b, st) else (b', checkbox_toggled b' st)

-- What GTK says of the target.
pub record Target : Type 0 where
  pub is_toggle_button : Bool
  pub is_visible : Bool
  pub has_focus : Bool

-- The Boolean says whether the polling goes on.
unfoldable pub checkbox_poll : Target → Checkbox → Option State → Bool × (Checkbox × Option State)
checkbox_poll t b st =
    let tmp = bit_and (getter b.field st) b.mask in
    if not t.is_toggle_button
    then (false, (b, st))
    else if not t.is_visible || t.has_focus
    then (true, (b, st))
    else if agrees tmp b.active
    then (true, (b, st))
    else (true, set_active (not (tmp == 0)) b st)
