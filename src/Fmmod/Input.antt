-- ===== src/Fmmod/Input.antt =====
-- fmmod.c: `fmmod_process_cb`, JACK's callback with a period of audio. What JACK's ports hold is
-- an argument.
use jmpxrds.Base.{
  ℕ, ◌+◌, List, [], ◌∷◌, map, Bool, true, false, not, ◌||◌, ◌==◌, ltb, if◌then◌else◌,
}
use jmpxrds.Base.Int.{ℤ, pos, minus}
use jmpxrds.Fmmod.Oscilator.{Arith}
use jmpxrds.Fmmod.Filters.{Preemph, PreemphMode, no_preemph, same_mode, fmpreemph_filter_apply}

-- What the callback changes of `struct fmmod_instance` and its control; `prev_mode` is the static
-- variable of the pre-emphasis filters, `inbuf_locked` whether a thread holds
-- the input buffer's mutex, and `signals` counts the triggers of the processing thread.
pub record Input (A : Type 0) : Type 0 where
  pub active : Bool
  pub num_in_samples : ℕ
  pub inbuf : List (A × A)
  pub fmprf_l : Preemph A
  pub fmprf_r : Preemph A
  pub prev_mode : PreemphMode
  pub preemph_tau : PreemphMode
  pub peak_audio_in : A × A
  pub inbuf_locked : Bool
  pub signals : ℕ

module _ {A D : Type 0} (arith : Arith A D) where
  -- The frames through the filters, left before right.
  unfoldable pub emphasise_frames : List (A × A) → Input A → Input A × List (A × A)
  emphasise_frames [] fm = (fm, [])
  emphasise_frames (x ∷ xs) fm =
      let (l, fmprf_l, prev) =
        fmpreemph_filter_apply arith fm.fmprf_l x.0 fm.preemph_tau fm.prev_mode in
      let (r, fmprf_r, prev') = fmpreemph_filter_apply arith fm.fmprf_r x.1 fm.preemph_tau prev in
      let (fm', ys) =
        emphasise_frames xs
          (record fm { fmprf_l = fmprf_l; fmprf_r = fmprf_r; prev_mode = prev' }) in
      (fm', (l, r) ∷ ys)

  -- `preemph_tau` is none or not.
  unfoldable pub fill_inbuf : List (A × A) → Input A → Input A × List (A × A)
  unfolding emphasise_frames
  fill_inbuf xs fm =
      if not (same_mode fm.preemph_tau no_preemph) then emphasise_frames xs fm else (fm, xs)

  abbrev pub amplify : A → A × A → A × A
  amplify gain (l, r) = (arith.times l gain, arith.times r gain)

  unfoldable pub peaks : List (A × A) → A × A → A × A
  peaks [] (l, r) = (l, r)
  peaks (x ∷ xs) (l, r) =
      peaks xs (if arith.above x.0 l then x.0 else l, if arith.above x.1 r then x.1 else r)

  -- The mutex is locked, the buffers filled, the mutex unlocked, and the thread triggered.
  unfoldable pub take_input : A → List (A × A) → Input A → Input A
  unfolding fill_inbuf peaks
  take_input audio_gain xs fm =
      let locked : Input A = record fm { inbuf_locked = true } in
      let (filled, ys) = fill_inbuf xs locked in
      let loud = map (amplify audio_gain) ys in
      let ready : Input A = record filled {
        inbuf = loud;
        peak_audio_in = peaks loud (arith.literal 0, arith.literal 0);
      } in
      let unlocked : Input A = record ready { inbuf_locked = false } in
      record unlocked { signals = unlocked.signals + 1 }

  -- The callback with `num_samples` frames `xs`; the trylock fails while the mutex is held.
  unfoldable pub process_cb : A → ℕ → List (A × A) → Input A → Input A × ℤ
  unfolding take_input
  process_cb audio_gain num_samples xs fm =
      if not fm.active
      then (fm, pos 0)
      else if num_samples == 0 || ltb num_samples fm.num_in_samples
      then (fm, pos 0)
      else if ltb fm.num_in_samples num_samples
      then (fm, minus 1)
      else if fm.inbuf_locked
      then (fm, pos 0)
      else (take_input audio_gain xs fm, pos 0)
