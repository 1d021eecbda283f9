-- ===== src/Gui/Entries.antt =====
-- gui/jmrg_acentry.c and gui/jmrg_set_button.c: the entries with completion for the country and the
-- language, and the button "Set" of an entry. The C library's `strtol` is an argument.
use Prim.Native.String.{String}
use mathlib.Core.Option
use jmpxrds.Base.{
  ℕ, ◌%◌, ◌^◌, List, [], Option, some, Bool, true, false, not, ◌||◌, if◌then◌else◌, ◌>>>◌,
}
use jmpxrds.Base.Int.{ℤ, pos, negsuc, wrap}
use jmpxrds.Config.State.{State, get_pi, set_pi, get_ecc, set_ecc, get_lic, set_lic}
use jmpxrds.Config.Text.{set_ps, set_rt, set_ptyn}
use jmpxrds.Codes.{
  get_ctry_idx_from_ctry_codes, get_ctry_name, get_lang_idx_from_lic, get_lang_name,
  get_ecc_by_ctry_idx, get_lic_by_lang_idx,
}

-- The fields that `jmrg_acentry_init` makes an entry for.
pub data EntryField : Type 0 where
  entry_ecc : EntryField
  entry_lic : EntryField

-- The name that the polling looks up. The search by language has a parameter of eight bits, and so has
-- the read of a language's name. A read outside the table is `none`.
unfoldable pub looked_up : EntryField → Option State → Option String
looked_up entry_ecc st =
    get_ctry_name (get_ctry_idx_from_ctry_codes (get_pi st >>> 12) (get_ecc st))
looked_up entry_lic st = some (get_lang_name (wrap 8 (get_lang_idx_from_lic (get_lic st % 2 ^ 8))))

-- The Boolean says whether the polling goes on; the text is the entry's.
unfoldable pub acentry_poll :
    Bool → Bool → Bool → EntryField → Option State → String → Option (Bool × String)
acentry_poll is_entry is_visible has_focus f st text =
    if not is_entry
    then some (false, text)
    else if not is_visible || has_focus
    then some (true, text)
    else Option.map (λ (name : String). (true, name)) (looked_up f st)

-- The widgets beside a button: an entry's text, the flag's toggle button, and the row of the
-- completion that was matched, -1 before.
pub record Form : Type 0 where
  pub entry : List ℕ
  pub flag : Bool
  pub match_idx : ℤ

pub data SetField : Type 0 where
  set_entry_pi set_entry_ps set_entry_rt set_entry_ptyn set_entry_ecc set_entry_lic : SetField

-- `if (tmp < 0) return;`, and then the setter.
unfoldable pub store_code : ℤ → (ℕ → Option State) → Option State → Option State
store_code (pos code) store st = store code
store_code (negsuc n) store st = st

-- `if (val < 0) return;`, and then the code of the row.
unfoldable pub matched : (ℕ → ℤ) → ℤ → (ℕ → Option State) → Option State → Option State
unfolding store_code
matched code_of (negsuc n) store st = st
matched code_of (pos i) store st = store_code (code_of i) store st

module _ (strtol : ℕ → List ℕ → ℤ) where
  -- A text's entry is emptied afterwards.
  unfoldable pub set_button_clicked : SetField → Form → Option State → Form × Option State
  set_button_clicked set_entry_pi f st =
      (record f { entry = [] }, (set_pi st (wrap 16 (strtol 16 f.entry))).0)
  set_button_clicked set_entry_ps f st = (record f { entry = [] }, (set_ps st (some f.entry)).0)
  set_button_clicked set_entry_rt f st =
      (record f { entry = [] }, (set_rt st (some f.entry) f.flag).0)
  set_button_clicked set_entry_ptyn f st = (record f { entry = [] }, (set_ptyn st (some f.entry)).0)
  set_button_clicked set_entry_ecc f st =
      (f, matched get_ecc_by_ctry_idx f.match_idx (λ n. (set_ecc st (n % 2 ^ 8)).0) st)
  set_button_clicked set_entry_lic f st = (
    f,
    matched (λ i. get_lic_by_lang_idx (i % 2 ^ 8)) f.match_idx (λ n. (set_lic st (n % 2 ^ 16)).0)
        st,
  )
