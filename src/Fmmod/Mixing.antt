-- ===== src/Fmmod/Mixing.antt =====
-- fmmod.c: the four generators of the multiplex signal.
use jmpxrds.Base.{ℕ, suc, List, [], ◌∷◌, map, length, get_or, Bool}
use jmpxrds.Encoder.{Encoder, get_next_sample}
use jmpxrds.Fmmod.Oscilator.{
  Arith, Osc, increase_phase, sample_for_freq, sample_19khz, sample_38khz, sample_57khz,
}
use jmpxrds.Fmmod.Filters.{overlay, Lpf, Hilbert, lpf_filter_apply, hilbert_transformer_apply}

pub data StereoModulation : Type 0 where
  dsb : StereoModulation
  ssb_hartley : StereoModulation
  ssb_lpf : StereoModulation
  mono : StereoModulation

-- The gains of `struct fmmod_control`.
pub record Gains (A : Type 0) : Type 0 where
  pub audio_gain : A
  pub pilot_gain : A
  pub rds_gain : A
  pub stereo_carrier_gain : A
  pub mpx_gain : A

-- What a generator changes of `struct fmmod_instance`.
pub record Mixer (A D : Type 0) : Type 0 where
  pub sin_osc : Osc D
  pub cos_osc : Osc D
  pub lpf : Lpf A
  pub ht : Hilbert A
  pub rds_enc : Encoder A

module _ {A D : Type 0} (arith : Arith A D) (gains : Gains A) (enabled : Bool) where
  abbrev pub advanced : Mixer A D → Mixer A D
  advanced m = record m { sin_osc = increase_phase arith m.sin_osc }

  -- The RDS sample on the 57 kHz carrier added, the whole scaled, and the phase increased: the end of
  -- every frame.
  abbrev pub finish_frame : A → Mixer A D → A × Mixer A D
  finish_frame out m =
      let (symbol, enc) = get_next_sample (arith.literal 0) enabled m.rds_enc in
      let rds = arith.times (arith.times gains.rds_gain (sample_57khz arith m.sin_osc)) symbol in
      (arith.times (arith.plus out rds) gains.mpx_gain, advanced (record m { rds_enc = enc }))

  -- The stereo pilot added.
  abbrev pub with_pilot : A → Mixer A D → A
  with_pilot out m = arith.plus out (arith.times gains.pilot_gain (sample_19khz arith m.sin_osc))

  -- Every frame of two buffers.
  unfoldable pub frames :
      (A → A → Mixer A D → A × Mixer A D) → List (A × A) → Mixer A D → List A × Mixer A D
  frames f [] m = ([], m)
  frames f (x ∷ xs) m =
      let (out, m') = f x.0 x.1 m in let (outs, m'') = frames f xs m' in (out ∷ outs, m'')

  abbrev pub mono_frame : A → A → Mixer A D → A × Mixer A D
  mono_frame lpr lmr m = finish_frame lpr m

  abbrev pub dsb_frame : A → A → Mixer A D → A × Mixer A D
  dsb_frame lpr lmr m =
      let carrier =
        arith.times (arith.times lmr (sample_38khz arith m.sin_osc)) gains.stereo_carrier_gain in
      finish_frame (arith.plus (with_pilot lpr m) carrier) m

  -- The first loop of the filter-based modulator, which only moves the phase.
  abbrev pub both_bands_frame : A → A → Mixer A D → A × Mixer A D
  both_bands_frame lpr lmr m =
      (arith.plus lpr (arith.times lmr (sample_38khz arith m.sin_osc)), advanced m)

  abbrev pub pilot_frame : A → A → Mixer A D → A × Mixer A D
  pilot_frame out unused m = finish_frame (with_pilot out m) m

  -- A frame of the Hartley modulator, from the shifted L - R and the two inputs.
  abbrev pub hartley_frame : A → A × A → Mixer A D → A × Mixer A D
  hartley_frame shifted (lpr, lmr) m =
      let m' = record m {
        cos_osc = record m.cos_osc { current_phase = m.sin_osc.current_phase };
      } in
      let up = arith.times shifted (sample_for_freq arith m'.cos_osc 38000) in
      let band = arith.plus up (arith.times lmr (sample_for_freq arith m'.sin_osc 38000)) in
      let scaled = arith.times band (arith.times gains.stereo_carrier_gain (arith.literal 15)) in
      finish_frame (with_pilot (arith.plus scaled lpr) m') m'

  -- Pairs of a sample with the sample at its place in another buffer.
  unfoldable pub paired {ℓ} : {B : Type ℓ} → List B → ℕ → List A → List (B × A)
  paired [] i other = []
  paired (x ∷ xs) i other = (x, get_or other i (arith.literal 0)) ∷ paired xs (suc i) other

  unfoldable pub hartley_frames : List ((A × A) × A) → Mixer A D → List A × Mixer A D
  hartley_frames [] m = ([], m)
  hartley_frames (x ∷ xs) m =
      let (out, m') = hartley_frame x.1 x.0 m in
      let (outs, m'') = hartley_frames xs m' in (out ∷ outs, m'')

  unfoldable pub mono_generator : List (A × A) → Mixer A D → List A × Mixer A D
  unfolding frames
  mono_generator xs m = frames mono_frame xs m

  unfoldable pub dsb_generator : List (A × A) → Mixer A D → List A × Mixer A D
  unfolding frames
  dsb_generator xs m = frames dsb_frame xs m

  unfoldable pub ssb_lpf_generator : List (A × A) → Mixer A D → List A × Mixer A D
  unfolding frames paired
  ssb_lpf_generator xs m =
      let (bands, m') = frames both_bands_frame xs m in
      let restored = record m' {
        sin_osc = record m'.sin_osc { current_phase = m.sin_osc.current_phase };
      } in
      let gain = arith.times gains.stereo_carrier_gain (arith.literal 20) in
      let (lpf, filtered) = lpf_filter_apply arith m'.lpf bands (length xs) gain in
      frames pilot_frame (paired (overlay bands 0 filtered) 0 []) (record restored { lpf = lpf })

  unfoldable pub hartley_generator : List (A × A) → Mixer A D → List A × Mixer A D
  unfolding hartley_frames paired
  hartley_generator xs m =
      let ht = hilbert_transformer_apply arith m.ht (map (λ (x : A × A). x.1) xs) (length xs) in
      hartley_frames (paired xs 0 ht.real_buff) (record m { ht = ht })

  -- The choice of `fmmod_process`.
  unfoldable pub get_mpx_samples : StereoModulation → List (A × A) → Mixer A D → List A × Mixer A D
  unfolding mono_generator dsb_generator ssb_lpf_generator hartley_generator
  get_mpx_samples mono xs m = mono_generator xs m
  get_mpx_samples ssb_hartley xs m = hartley_generator xs m
  get_mpx_samples ssb_lpf xs m = ssb_lpf_generator xs m
  get_mpx_samples dsb xs m = dsb_generator xs m
