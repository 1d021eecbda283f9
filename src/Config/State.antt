-- ===== src/Config/State.antt =====
-- `struct rds_encoder_state` and its numeric fields: rds_encoder.h, rds_config.c.
use jmpxrds.Base.{ℕ, ◌^◌, ◌%◌, ◌-◌, bit_and, List, Option, none, some, ◌==◌, leb, if◌then◌else◌}
use jmpxrds.Base.Int.{ℤ, pos, minus}

pub record State : Type 0 where
  pub enabled : ℕ
  pub pi : ℕ
  pub ecc : ℕ
  pub ecc_set : ℕ
  pub lic : ℕ
  pub lic_set : ℕ
  pub pty : ℕ
  pub ta : ℕ
  pub tp : ℕ
  pub ms : ℕ
  pub di : ℕ
  pub ps : List ℕ
  pub ps_set : ℕ
  pub ps_idx : ℕ
  pub ptyn : List ℕ
  pub ptyn_set : ℕ
  pub ptyn_idx : ℕ
  pub ptyn_flush : ℕ
  pub rt : List ℕ
  pub rt_set : ℕ
  pub rt_idx : ℕ
  pub rt_segments : ℕ
  pub rt_flush : ℕ
  pub af_data : List ℕ
  pub af_set : ℕ
  pub af_len : ℕ
  pub af_idx : ℕ

-- What a setter returns: the state behind the pointer, and the return code.
abbrev pub Setting : Type 0
Setting = Option State × ℤ

-- `return -1` of a function into `uint16_t`.
unfoldable pub get_pi : Option State → ℕ
get_pi none = 2 ^ 16 - 1
get_pi (some st) = st.pi

unfoldable pub set_pi : Option State → ℕ → Setting
set_pi none pi = (none, minus 1)
set_pi (some st) pi = (some (record st { pi = pi }), pos 0)

unfoldable pub get_ecc : Option State → ℕ
get_ecc none = 0
get_ecc (some st) = st.ecc

unfoldable pub set_ecc : Option State → ℕ → Setting
set_ecc none ecc = (none, minus 1)
set_ecc (some st) ecc = (some (record st { ecc = ecc; ecc_set = if ecc == 0 then 0 else 1 }), pos 0)

unfoldable pub get_lic : Option State → ℕ
get_lic none = 0
get_lic (some st) = st.lic

-- `lic` is a bit-field of 12 bits.
unfoldable pub set_lic : Option State → ℕ → Setting
set_lic none lic = (none, minus 1)
set_lic (some st) lic =
    let stored = bit_and lic 0xFFF % 2 ^ 12 in
    (some (record st { lic = stored; lic_set = if stored == 0 then 0 else 1 }), pos 0)

-- No test against NULL here.
unfoldable pub get_pty : State → ℕ
get_pty st = st.pty

unfoldable pub set_pty : Option State → ℕ → Setting
set_pty none pty = (none, minus 1)
set_pty (some st) pty =
    if leb pty 31 then (some (record st { pty = pty % 2 ^ 5 }), pos 0) else (some st, minus 1)

unfoldable pub get_ta : Option State → ℕ
get_ta none = 0
get_ta (some st) = st.ta

unfoldable pub set_ta : Option State → ℕ → Setting
set_ta none ta = (none, minus 1)
set_ta (some st) ta = (some (record st { ta = bit_and ta 1 }), pos 0)

unfoldable pub get_tp : Option State → ℕ
get_tp none = 0
get_tp (some st) = st.tp

unfoldable pub set_tp : Option State → ℕ → Setting
set_tp none tp = (none, minus 1)
set_tp (some st) tp = (some (record st { tp = bit_and tp 1 }), pos 0)

unfoldable pub get_ms : Option State → ℕ
get_ms none = 0
get_ms (some st) = st.ms

unfoldable pub set_ms : Option State → ℕ → Setting
set_ms none ms = (none, minus 1)
set_ms (some st) ms = (some (record st { ms = bit_and ms 1 }), pos 0)

unfoldable pub get_di : Option State → ℕ
get_di none = 0
get_di (some st) = st.di

unfoldable pub set_di : Option State → ℕ → Setting
set_di none di = (none, minus 1)
set_di (some st) di = (some (record st { di = bit_and di 0xF }), pos 0)
