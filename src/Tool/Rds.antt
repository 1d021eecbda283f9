-- ===== src/Tool/Rds.antt =====
-- rds_tool.c: `main`, over the options that `getopt_long_only` gives. The C library's `strtol` and
-- `atoi` are arguments.
use jmpxrds.Base.{
  ℕ, ◌-◌, bit_and, List, [], ◌∷◌, take, Option, none, some, Bool, true, false, not, ◌||◌,
  if◌then◌else◌,
}
use jmpxrds.Base.Int.{ℤ, pos, minus, is_neg, is_zero, wrap}
use jmpxrds.Config.State.{State}
use jmpxrds.Config.Valid.{Request, pi, ecc, lic, pty, ta, tp, ms, di, ps, ptyn, rt, apply}
use jmpxrds.Dynamic.Filemon.{
  Watch, WatchAnswers, cleared_watch, copy_fixed, dynps_init, dynrt_init, dynps_destroy,
  dynrt_destroy,
}

-- `struct rds_dynps_state` and `struct rds_dynrt_state`, as this program has them: `bound` is whether
-- they point to the encoder's state.
pub record DynamicText : Type 0 where
  pub watch : Watch
  pub bound : Bool
  pub fixed : List ℕ

-- `{0}`
abbrev pub no_dynamic_text : DynamicText
no_dynamic_text = record {
  watch = record cleared_watch { locks = false };
  bound = false;
  fixed = [];
}

-- The local variables, and the shared state.
pub record RdsTool : Type 0 where
  pub st : State
  pub dps : DynamicText
  pub drt : DynamicText
  pub timeout : ℕ
  pub loop : Bool
  pub ret : ℤ

-- The options that set one field.
pub data Field : Type 0 where
  opt_rt opt_ps opt_pi opt_pty opt_ptyn opt_ecc opt_lic opt_tp opt_ta opt_ms opt_di : Field

-- An option, with its argument; of a dynamic text, with what the system answers about the file.
pub data RdsOption : Type 0 where
  show_config enable disable unknown : RdsOption
  set_field : Field → List ℕ → RdsOption
  dynamic_ps dynamic_rt : WatchAnswers → RdsOption
  set_timeout : List ℕ → RdsOption

-- `snprintf(temp, size, "%s", arg)`
abbrev pub cut : ℕ → List ℕ → List ℕ
cut size arg = take (size - 1) arg

abbrev pub flag_of : ℤ → ℕ
flag_of n = if is_zero n then 0 else 1

-- The state behind the pointer, which is not NULL.
abbrev pub behind : State → Option State → State
behind st none = st
behind st (some st') = st'

-- After a call with a code: whether the loop goes on.
abbrev pub checked : RdsTool → ℤ → RdsTool × Bool
checked t code = (record t { ret = code }, not (is_neg code))

unfoldable pub start_ps : WatchAnswers → RdsTool → RdsTool × Bool
unfolding dynps_init
start_ps a t =
    let (w, st', code) = dynps_init a t.st in
    let dps : DynamicText = elim w [
      | none ↦ t.dps
      | some watch ↦ record { watch = watch; bound = true; fixed = copy_fixed 8 t.st.ps }
    ] in
    checked (record t { st = behind t.st st'; dps = dps; loop = t.loop || not (is_neg code) }) code

unfoldable pub start_rt : WatchAnswers → RdsTool → RdsTool × Bool
unfolding dynrt_init
start_rt a t =
    let (w, st', code) = dynrt_init a t.st in
    let drt : DynamicText = elim w [
      | none ↦ t.drt
      | some watch ↦ record { watch = watch; bound = true; fixed = copy_fixed 64 t.st.rt }
    ] in
    checked (record t { st = behind t.st st'; drt = drt; loop = t.loop || not (is_neg code) }) code

-- Both texts are ended, whichever of them was started.
unfoldable pub end_texts : RdsTool → RdsTool
unfolding dynps_destroy dynrt_destroy
end_texts t =
    let (w, st1) =
      dynps_destroy t.dps.watch t.dps.fixed (if t.dps.bound then some t.st else none) in
    let with_ps = record t { st = behind t.st st1; dps = record t.dps { watch = w } } in
    let (v, st2) =
      dynrt_destroy t.drt.watch t.drt.fixed (if t.drt.bound then some with_ps.st else none) in
    record with_ps { st = behind with_ps.st st2; drt = record t.drt { watch = v } }

-- After the options: `meanwhile` is what becomes of the state in the loop, until a signal.
unfoldable pub finish_tool : (meanwhile : State → State) → (no_option : Bool) → RdsTool → RdsTool
unfolding end_texts
finish_tool meanwhile no_option t =
    let t' = if no_option then record t { ret = minus 1 } else t in
    if t'.loop then end_texts (record t' { st = meanwhile t'.st }) else t'

abbrev pub is_empty : List RdsOption → Bool
is_empty [] = true
is_empty (o ∷ os) = false

abbrev pub fresh_tool : State → RdsTool
fresh_tool st = record {
  st = st;
  dps = no_dynamic_text;
  drt = no_dynamic_text;
  timeout = 0;
  loop = false;
  ret = pos 0;
}

-- `strtol` takes the base first.
module _ (strtol : ℕ → List ℕ → ℤ) (atoi : List ℕ → ℤ) where
  -- What the setter is called with.
  unfoldable pub request_of : Field → List ℕ → Request
  request_of opt_rt arg = rt (some (cut 65 arg)) true
  request_of opt_ps arg = ps (some (cut 9 arg))
  request_of opt_pi arg = pi (wrap 16 (strtol 16 (cut 7 arg)))
  request_of opt_pty arg = pty (wrap 8 (atoi (cut 4 arg)))
  request_of opt_ptyn arg = ptyn (some (cut 9 arg))
  request_of opt_ecc arg = ecc (wrap 8 (strtol 16 (cut 5 arg)))
  request_of opt_lic arg = lic (bit_and (wrap 16 (strtol 16 (cut 6 arg))) 0xFFF)
  request_of opt_tp arg = tp (flag_of (strtol 2 (cut 2 arg)))
  request_of opt_ta arg = ta (flag_of (strtol 2 (cut 2 arg)))
  request_of opt_ms arg = ms (flag_of (strtol 2 (cut 2 arg)))
  request_of opt_di arg = di (bit_and (wrap 8 (strtol 16 (cut 2 arg))) 0xF)

  -- One option: the Boolean says whether the next one is read.
  unfoldable pub handle_option : RdsOption → RdsTool → RdsTool × Bool
  unfolding request_of apply start_ps start_rt
  handle_option show_config t = (t, true)
  handle_option enable t = (record t { st = record t.st { enabled = 1 } }, true)
  handle_option disable t = (record t { st = record t.st { enabled = 0 } }, true)
  handle_option unknown t = (record t { ret = minus 1 }, false)
  handle_option (set_field f arg) t =
      let (st', code) = apply (request_of f arg) (some t.st) in
      checked (record t { st = behind t.st st' }) code
  handle_option (dynamic_ps a) t = start_ps a t
  handle_option (dynamic_rt a) t = start_rt a t
  handle_option (set_timeout arg) t = (record t { timeout = wrap 32 (strtol 10 (cut 4 arg)) }, true)

  unfoldable pub handle_options : List RdsOption → RdsTool → RdsTool × Bool
  unfolding handle_option
  handle_options [] t = (t, true)
  handle_options (o ∷ os) t =
      let (t', goes_on) = handle_option o t in
      let rest = handle_options os t' in if goes_on then rest else (t', false)

  -- `main`, with the shared memory attached; the result holds the code.
  unfoldable pub rds_main : (meanwhile : State → State) → List RdsOption → State → RdsTool
  unfolding handle_options finish_tool
  rds_main meanwhile os st =
      let (t, goes_on) = handle_options os (fresh_tool st) in
      if goes_on then finish_tool meanwhile (is_empty os) t else t
