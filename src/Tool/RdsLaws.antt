-- ===== src/Tool/RdsLaws.antt =====
-- What a run of rds_tool leaves: a valid state, and a code that says whether all was accepted.
use jmpxrds.Base.{
  ℕ, ◌-◌, ◌^◌, ◌<◌, bit_and_mask, List, [], ◌∷◌, take, Option, none, some, Bool, true, false, not,
  ◌&&◌, ◌||◌, if◌then◌else◌, ◌≡◌, refl, arith, leb, ◌∙◌, ap, sym, ◌==◌, Bool-cases, inl, inr,
}
use native.Mathlib.Nat.{one-le-pow, mod-lt}
use jmpxrds.Base.Int.{ℤ, pos, negsuc, minus, is_neg, wrap}
use jmpxrds.Config.State.{State, set_pi, set_ecc, set_lic, set_pty, set_ta, set_tp, set_ms, set_di}
use jmpxrds.Config.Text.{strnlen, set_ps, set_ptyn, set_rt}
use jmpxrds.Config.Texts.{strnlen-le}
use jmpxrds.Config.Valid.{IsValid, Holds, Fits, ps, rt, apply, apply-IsValid}
use jmpxrds.Dynamic.Filemon.{
  WatchAnswers, start_watch, dynps_init, dynrt_init, dynps_destroy, dynrt_destroy, copy_fixed,
}
use jmpxrds.Dynamic.Lifecycle.{all_ok, start_watch-code}
use jmpxrds.Tool.Rds.{
  Field, opt_rt, opt_ps, opt_pi, opt_pty, opt_ptyn, opt_ecc, opt_lic, opt_tp, opt_ta, opt_ms,
  opt_di, RdsOption, show_config, enable, disable, unknown, set_field, dynamic_ps, dynamic_rt,
  set_timeout, RdsTool, request_of, behind, handle_option, handle_options, end_texts, finish_tool,
  fresh_tool, rds_main, start_ps, start_rt, is_empty, checked,
}

pub wrap-lt : (w : ℕ) (n : ℤ) → wrap w n < 2 ^ w
wrap-lt w (pos n) = mod-lt n (one-le-pow w 2 (omega arith))
wrap-lt w (negsuc n) = omega (arith, one-le-pow w 2 (omega arith))

behind-IsValid : (st : State) (o : Option State) → Holds o → IsValid (behind st o)
behind-IsValid st (some s) v = v
behind-IsValid st none v = absurd v

-- The state of an initialisation's three cases.
cases-Holds :
    {W : Type 0} (b c : Bool) (w w' w'' : W) (x y : Option State) (m n : ℤ)
    → Holds x
    → Holds y
    → Holds
        (if◌then◌else◌ {A = W × Option State × ℤ} b
          (w, x, m)
          (if c then (w', y, n) else (w'', x, n))).1
cases-Holds true c w w' w'' x y m n u v = u
cases-Holds false true w w' w'' x y m n u v = v
cases-Holds false false w w' w'' x y m n u v = u

restored_ps : (st : State) (s : List ℕ) → IsValid st → Holds (set_ps (some st) (some s)).0
unfolding apply
restored_ps st s v = apply-IsValid (ps (some s)) st tt v

restored_rt : (st : State) (s : List ℕ) → IsValid st → Holds (set_rt (some st) (some s) true).0
unfolding apply
restored_rt st s v = apply-IsValid (rt (some s) true) st tt v

start_ps-IsValid : (a : WatchAnswers) (t : RdsTool) → IsValid t.st → IsValid (start_ps a t).0.st
unfolding start_ps dynps_init dynps_destroy
start_ps-IsValid a t v = behind-IsValid t.st (dynps_init a t.st).1 (
    cases-Holds (t.st.ps_set == 0) (is_neg (start_watch a).1) _ _ _ _ _ _ _ v
      (restored_ps t.st (copy_fixed 8 t.st.ps) v))

start_rt-IsValid : (a : WatchAnswers) (t : RdsTool) → IsValid t.st → IsValid (start_rt a t).0.st
unfolding start_rt dynrt_init dynrt_destroy
start_rt-IsValid a t v = behind-IsValid t.st (dynrt_init a t.st).1 (
    cases-Holds (t.st.rt_set == 0) (is_neg (start_watch a).1) _ _ _ _ _ _ _ v
      (restored_rt t.st (copy_fixed 64 t.st.rt) v))

enabled-IsValid : (st : State) (n : ℕ) → IsValid st → IsValid (record st { enabled = n })
enabled-IsValid st n v = record {
  pi_fits = v.pi_fits;
  ecc_fits = v.ecc_fits;
  ecc_flag = v.ecc_flag;
  lic_fits = v.lic_fits;
  lic_flag = v.lic_flag;
  pty_fits = v.pty_fits;
  ta_flag = v.ta_flag;
  tp_flag = v.tp_flag;
  ms_flag = v.ms_flag;
  di_fits = v.di_fits;
  ps_length = v.ps_length;
  ps_chars = v.ps_chars;
  ps_flag = v.ps_flag;
  ps_place = v.ps_place;
  ptyn_length = v.ptyn_length;
  ptyn_chars = v.ptyn_chars;
  ptyn_flag = v.ptyn_flag;
  ptyn_place = v.ptyn_place;
  ptyn_toggle = v.ptyn_toggle;
  rt_length = v.rt_length;
  rt_chars = v.rt_chars;
  rt_flag = v.rt_flag;
  rt_place = v.rt_place;
  rt_count = v.rt_count;
  rt_toggle = v.rt_toggle;
  af_length = v.af_length;
  af_bytes = v.af_bytes;
  af_place = v.af_place;
}

bound_ps-IsValid :
    (st : State) (b : Bool) (s : List ℕ)
    → IsValid st
    → IsValid (behind st (set_ps (if b then some st else none) (some s)).0)
unfolding set_ps
bound_ps-IsValid st true s v = behind-IsValid st (set_ps (some st) (some s)).0 (restored_ps st s v)
bound_ps-IsValid st false s v = v

bound_rt-IsValid :
    (st : State) (b : Bool) (s : List ℕ)
    → IsValid st
    → IsValid (behind st (set_rt (if b then some st else none) (some s) true).0)
unfolding set_rt
bound_rt-IsValid st true s v =
    behind-IsValid st (set_rt (some st) (some s) true).0 (restored_rt st s v)
bound_rt-IsValid st false s v = v

end_texts-IsValid : (t : RdsTool) → IsValid t.st → IsValid (end_texts t).st
unfolding end_texts dynps_destroy dynrt_destroy
end_texts-IsValid t v =
    bound_rt-IsValid _ t.drt.bound t.drt.fixed (bound_ps-IsValid t.st t.dps.bound t.dps.fixed v)

if-IsValid :
    (b : Bool) (x y : RdsTool) → IsValid x.st → IsValid y.st → IsValid (if b then x else y).st
if-IsValid true x y u v = u
if-IsValid false x y u v = v

finish_tool-IsValid :
    (meanwhile : State → State) (b : Bool) (t : RdsTool)
    → ((st : State) → IsValid st → IsValid (meanwhile st))
    → IsValid t.st
    → IsValid (finish_tool meanwhile b t).st
unfolding finish_tool
finish_tool-IsValid meanwhile true t h v =
    if-IsValid t.loop _ _
      (end_texts-IsValid (record t { st = meanwhile t.st; ret = minus 1 }) (h t.st v)) v
finish_tool-IsValid meanwhile false t h v =
    if-IsValid t.loop _ _ (end_texts-IsValid (record t { st = meanwhile t.st }) (h t.st v)) v

finish_tool-ret :
    (meanwhile : State → State) (b : Bool) (t : RdsTool)
    → (finish_tool meanwhile b t).ret ≡ (if b then minus 1 else t.ret)
unfolding finish_tool end_texts
finish_tool-ret meanwhile b t = ground arith

not-not : (b : Bool) → not (not b) ≡ b
not-not true = refl
not-not false = refl

code_of : (g e : Bool) {a : Bool} → g ≡ a → (if g then e else true) ≡ (e || not a)
code_of true true h = refl
code_of true false h = ap not h
code_of false true h = refl
code_of false false h = ap not h

module _ (strtol : ℕ → List ℕ → ℤ) (atoi : List ℕ → ℤ) where
  request_of-Fits : (f : Field) (arg : List ℕ) → Fits (request_of strtol atoi f arg)
  unfolding request_of
  request_of-Fits opt_rt arg = tt
  request_of-Fits opt_ps arg = tt
  request_of-Fits opt_pi arg = wrap-lt 16 _
  request_of-Fits opt_pty arg = tt
  request_of-Fits opt_ptyn arg = tt
  request_of-Fits opt_ecc arg = wrap-lt 8 _
  request_of-Fits opt_lic arg =
      ground (arith, bit_and_mask 12 (wrap 16 (strtol 16 (take (6 - 1) arg))))
  request_of-Fits opt_tp arg = tt
  request_of-Fits opt_ta arg = tt
  request_of-Fits opt_ms arg = tt
  request_of-Fits opt_di arg = tt

  handle_option-IsValid :
      (o : RdsOption) (t : RdsTool) → IsValid t.st → IsValid (handle_option strtol atoi o t).0.st
  unfolding handle_option
  handle_option-IsValid show_config t v = v
  handle_option-IsValid enable t v = enabled-IsValid t.st 1 v
  handle_option-IsValid disable t v = enabled-IsValid t.st 0 v
  handle_option-IsValid unknown t v = v
  handle_option-IsValid (set_field f arg) t v =
      behind-IsValid t.st _
        (apply-IsValid (request_of strtol atoi f arg) t.st (request_of-Fits f arg) v)
  handle_option-IsValid (dynamic_ps a) t v = start_ps-IsValid a t v
  handle_option-IsValid (dynamic_rt a) t v = start_rt-IsValid a t v
  handle_option-IsValid (set_timeout arg) t v = v

  goes_on-IsValid :
      (b : Bool) (r : RdsTool × Bool) (t : RdsTool)
      → IsValid r.0.st
      → IsValid t.st
      → IsValid (if b then r else (t, false)).0.st
  goes_on-IsValid true r t u v = u
  goes_on-IsValid false r t u v = v

  handle_options-IsValid :
      (os : List RdsOption) (t : RdsTool)
      → IsValid t.st
      → IsValid (handle_options strtol atoi os t).0.st
  unfolding handle_options
  handle_options-IsValid [] t v = v
  handle_options-IsValid (o ∷ os) t v =
      let w = handle_option-IsValid o t v in
      goes_on-IsValid (handle_option strtol atoi o t).1 _ (handle_option strtol atoi o t).0
        (handle_options-IsValid os (handle_option strtol atoi o t).0 w) w

  -- Whether an option is accepted: a programme type of at most 31, after its cast to eight bits, a
  -- programme name that is not empty, a dynamic text whose fixed text is set, and that can be started.
  abbrev pub accepts : RdsOption → State → Bool
  accepts show_config st = true
  accepts enable st = true
  accepts disable st = true
  accepts unknown st = false
  accepts (set_timeout arg) st = true
  accepts (set_field opt_pty arg) st = leb (wrap 8 (atoi (take 3 arg))) 31
  accepts (set_field opt_ps arg) st = not (strnlen (take 8 arg) 8 == 0)
  accepts (set_field f arg) st = true
  accepts (dynamic_ps a) st = not (st.ps_set == 0) && all_ok a
  accepts (dynamic_rt a) st = not (st.rt_set == 0) && all_ok a

  -- What one option does to the code, given whether it is accepted.
  record HandledAs (ok : Bool) (t : RdsTool) (r : RdsTool × Bool) : Type 0 where
    goes_on : r.1 ≡ ok
    code : is_neg t.ret ≡ false → is_neg (r.0).ret ≡ not ok

  from_code :
      (t t' : RdsTool) (n : ℤ) (ok : Bool) → is_neg n ≡ not ok → HandledAs ok t (checked t' n)
  from_code t t' n ok e = record { goes_on = ap not e ∙ not-not ok; code = λ h. e }

  handle_option-HandledAs :
      (o : RdsOption) (t : RdsTool) → HandledAs (accepts o t.st) t (handle_option strtol atoi o t)
  unfolding handle_option request_of apply set_pi set_ecc set_lic set_pty set_ta set_tp set_ms
      set_di set_ps set_ptyn set_rt start_ps start_rt dynps_init dynrt_init
  handle_option-HandledAs show_config t = record { goes_on = refl; code = λ h. h }
  handle_option-HandledAs enable t = record { goes_on = refl; code = λ h. h }
  handle_option-HandledAs disable t = record { goes_on = refl; code = λ h. h }
  handle_option-HandledAs (set_timeout arg) t = record { goes_on = refl; code = λ h. h }
  handle_option-HandledAs unknown t = record { goes_on = refl; code = λ h. refl }
  handle_option-HandledAs (set_field opt_pi arg) t = record { goes_on = refl; code = λ h. refl }
  handle_option-HandledAs (set_field opt_ecc arg) t = record { goes_on = refl; code = λ h. refl }
  handle_option-HandledAs (set_field opt_lic arg) t = record { goes_on = refl; code = λ h. refl }
  handle_option-HandledAs (set_field opt_ta arg) t = record { goes_on = refl; code = λ h. refl }
  handle_option-HandledAs (set_field opt_tp arg) t = record { goes_on = refl; code = λ h. refl }
  handle_option-HandledAs (set_field opt_ms arg) t = record { goes_on = refl; code = λ h. refl }
  handle_option-HandledAs (set_field opt_di arg) t = record { goes_on = refl; code = λ h. refl }
  handle_option-HandledAs (set_field opt_pty arg) t =
      from_code t (handle_option strtol atoi (set_field opt_pty arg) t).0 _ _ (ground arith)
  handle_option-HandledAs (set_field opt_ps arg) t =
      from_code t (handle_option strtol atoi (set_field opt_ps arg) t).0 _ _
        (ground (arith, strnlen-le (take 8 arg) 8))
  handle_option-HandledAs (set_field opt_ptyn arg) t =
      from_code t (handle_option strtol atoi (set_field opt_ptyn arg) t).0 _ _
        (ground (arith, strnlen-le (take 8 arg) 8))
  handle_option-HandledAs (set_field opt_rt arg) t =
      from_code t (handle_option strtol atoi (set_field opt_rt arg) t).0 _ _
        (ground (arith, strnlen-le (take 64 arg) 64))
  handle_option-HandledAs (dynamic_ps a) t =
      from_code t (handle_option strtol atoi (dynamic_ps a) t).0 _ _
        (ground (arith, start_watch-code a))
  handle_option-HandledAs (dynamic_rt a) t =
      from_code t (handle_option strtol atoi (dynamic_rt a) t).0 _ _
        (ground (arith, start_watch-code a))

  -- Each option is accepted in the state that those before it leave.
  abbrev pub all_accepted : List RdsOption → RdsTool → Bool
  all_accepted [] t = true
  all_accepted (o ∷ os) t = accepts o t.st && all_accepted os (handle_option strtol atoi o t).0

  handle_options-HandledAs :
      (os : List RdsOption) (t : RdsTool)
      → HandledAs (all_accepted os t) t (handle_options strtol atoi os t)
  unfolding handle_options
  handle_options-HandledAs [] t = record { goes_on = refl; code = λ h. h }
  handle_options-HandledAs (o ∷ os) t =
      let h = handle_option-HandledAs o t in
      let r = handle_options-HandledAs os (handle_option strtol atoi o t).0 in
      elim (Bool-cases (accepts o t.st)) [
        | inl e ↦
            rw (h.goes_on, e)
              (record { goes_on = r.goes_on; code = λ n. r.code (h.code n ∙ ap not e) })
        | inr e ↦ rw (h.goes_on, e) (record { goes_on = refl; code = λ n. h.code n ∙ ap not e })
      ]

  -- The state is valid, and the code says whether there was an option and all were accepted.
  pub record IsRun (os : List RdsOption) (st : State) (t : RdsTool) : Type 0 where
    pub valid : IsValid t.st
    pub code : is_neg t.ret ≡ (is_empty os || not (all_accepted os (fresh_tool st)))

  finished :
      (meanwhile : State → State) (os : List RdsOption) (goes_on : Bool) (t : RdsTool)
      → ((st : State) → IsValid st → IsValid (meanwhile st))
      → IsValid t.st
      → IsValid (if goes_on then finish_tool meanwhile (is_empty os) t else t).st
  finished meanwhile os true t h v = finish_tool-IsValid meanwhile (is_empty os) t h v
  finished meanwhile os false t h v = v

  finished-code :
      (meanwhile : State → State) (none_there goes_on : Bool) (t : RdsTool)
      → is_neg t.ret ≡ not goes_on
      → is_neg (if goes_on then finish_tool meanwhile none_there t else t).ret
        ≡ (if goes_on then none_there else true)
  finished-code meanwhile true true t e = ap is_neg (finish_tool-ret meanwhile true t)
  finished-code meanwhile false true t e = ap is_neg (finish_tool-ret meanwhile false t) ∙ e
  finished-code meanwhile none_there false t e = e

  -- Any run of rds_tool on a valid state, while which the state stays valid, whatever the options and
  -- their arguments, leaves a valid state. Its code is negative exactly if there is no option, or
  -- some option is refused in the state that those before it leave, of which only a programme type
  -- above 31 in its eight bits, an empty programme name, a dynamic text that is not set or cannot
  -- be started, and an unknown option are.
  pub rds_main-IsRun :
      (meanwhile : State → State) (os : List RdsOption) (st : State)
      → ((st : State) → IsValid st → IsValid (meanwhile st))
      → IsValid st
      → IsRun os st (rds_main strtol atoi meanwhile os st)
  unfolding rds_main
  rds_main-IsRun meanwhile os st h v =
      let r = handle_options-HandledAs os (fresh_tool st) in
      let (t, goes_on) = handle_options strtol atoi os (fresh_tool st) in
      record {
        valid = finished meanwhile os goes_on t h (handle_options-IsValid os (fresh_tool st) v);
        code =
            finished-code meanwhile (is_empty os) goes_on t (r.code refl ∙ ap not (sym r.goes_on))
            ∙ code_of goes_on (is_empty os) r.goes_on;
      }
