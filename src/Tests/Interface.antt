-- ===== src/Tests/Interface.antt =====
-- The widgets of the interface at concrete inputs.
use jmpxrds.Base.{[], some, true, false, not, ◌≡◌, refl, arith}
use jmpxrds.Base.Int.{pos}
use jmpxrds.Gui.Checkbox.{Checkbox, field_di, Target, set_active, checkbox_poll}
use jmpxrds.Gui.Boxes.{IsClicked, IsPolled, checkbox-IsInStep}
use jmpxrds.Gui.Entries.{
  Form, entry_ecc, entry_lic, acentry_poll, set_entry_lic, set_entry_pi, set_button_clicked,
}
use jmpxrds.Config.Valid.{Holds}
use jmpxrds.Gui.Shown.{ShowsCountry, acentry-IsShown}
use jmpxrds.Codes.{name_at}
use jmpxrds.Codes.Languages.{li_codes}
use jmpxrds.Tests.Data.{state_1, state_1-IsValid}

-- The box "Compressed", and a poll of it while it is seen.
abbrev box_1 : Checkbox
box_1 = record { field = field_di; mask = 4; active = false }

abbrev target_1 : Target
target_1 = record { is_toggle_button = true; is_visible = true; has_focus = false }

checkbox-IsInStep_example :
    IsClicked box_1 state_1 (set_active (not box_1.active) box_1 (some state_1))
    × IsPolled target_1 box_1 state_1 (checkbox_poll target_1 box_1 (some state_1))
checkbox-IsInStep_example = checkbox-IsInStep target_1 box_1 state_1 refl state_1-IsValid

abbrev form_1 : Form
form_1 = record { entry = []; flag = false; match_idx = pos 9 }

acentry-IsShown_example :
    ShowsCountry state_1 (acentry_poll true true false entry_ecc (some state_1) "")
    × (acentry_poll true true false entry_lic
          (set_button_clicked (λ base text. pos 0) set_entry_lic form_1 (some state_1)).1
          ""
        ≡ some (true, name_at li_codes 9))
    × Holds (set_button_clicked (λ base text. pos 0) set_entry_pi form_1 (some state_1)).1
acentry-IsShown_example =
    acentry-IsShown (λ base text. pos 0) state_1 form_1 "" 9 set_entry_pi state_1-IsValid
      (omega arith) refl
