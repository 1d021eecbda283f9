-- ===== src/Fmmod/Stream.antt =====
-- The RDS stream in the multiplex signal, whatever the modulation of the stereo signal.
use jmpxrds.Base.{
  length-map, ℕ, zero, suc, ◌+◌, ◌%◌, ◌^◌, ◌≤◌, List, [], ◌∷◌, map, length, take, drop, Bool, ◌≡◌,
  ◌∙◌, refl, ap, arith, length-append, length-take, length-drop,
}
use jmpxrds.Encoder.{Encoder, get_next_sample}
use jmpxrds.Fmmod.Oscilator.{Arith, Osc, increase_phase}
use jmpxrds.Fmmod.Filters.{Lpf, overlay, lpf_filter_apply}
use jmpxrds.Fmmod.Mixing.{
  StereoModulation, dsb, ssb_hartley, ssb_lpf, mono, Gains, Mixer, frames, mono_frame, dsb_frame,
  both_bands_frame, pilot_frame, hartley_frame, hartley_frames, paired, mono_generator,
  dsb_generator, ssb_lpf_generator, hartley_generator, get_mpx_samples,
}

module _ {A D : Type 0} (ops : Arith A D) (gains : Gains A) (enabled : Bool) where
  -- The encoder after `n` samples were taken, and the oscilator after `n` frames.
  abbrev pub played : ℕ → Encoder A → Encoder A
  played zero enc = enc
  played (suc n) enc = played n (get_next_sample (ops.literal 0) enabled enc).1

  abbrev pub turned : ℕ → Osc D → Osc D
  turned zero osc = osc
  turned (suc n) osc = turned n (increase_phase ops osc)

  -- A generator of `n` frames.
  pub record IsStream (n : ℕ) (m : Mixer A D) (r : List A × Mixer A D) : Type 0 where
    pub frames_made : length (r.0) ≡ n
    pub heard : (r.1).rds_enc ≡ played n m.rds_enc
    pub in_phase : (r.1).sin_osc ≡ turned n m.sin_osc

  -- A frame that takes one sample and moves the phase once.
  IsFrame : (A → A → Mixer A D → A × Mixer A D) → Type 0
  IsFrame f =
      (x y : A) (m : Mixer A D)
      → ((f x y m).1.rds_enc ≡ played 1 m.rds_enc) × ((f x y m).1.sin_osc ≡ turned 1 m.sin_osc)

  IsStream-cons :
      (n : ℕ) (m m' : Mixer A D) (x : A) (r : List A × Mixer A D)
      → m'.rds_enc ≡ played 1 m.rds_enc
      → m'.sin_osc ≡ turned 1 m.sin_osc
      → IsStream n m' r
      → IsStream (suc n) m (x ∷ r.0, r.1)
  IsStream-cons n m m' x r e f v = record {
    frames_made = ap suc v.frames_made;
    heard = v.heard ∙ ap (λ enc. played n enc) e;
    in_phase = v.in_phase ∙ ap (λ osc. turned n osc) f;
  }

  frames-IsStream :
      (f : A → A → Mixer A D → A × Mixer A D) (xs : List (A × A)) (m : Mixer A D)
      → IsFrame f
      → IsStream (length xs) m (frames ops gains enabled f xs m)
  unfolding frames IsFrame
  frames-IsStream f [] m h = record { frames_made = refl; heard = refl; in_phase = refl }
  frames-IsStream f (x ∷ xs) m h =
      let (e, g) = h x.0 x.1 m in
      IsStream-cons (length xs) m (f x.0 x.1 m).1 (f x.0 x.1 m).0 _ e g
        (frames-IsStream f xs (f x.0 x.1 m).1 h)

  hartley_frames-IsStream :
      (xs : List ((A × A) × A)) (m : Mixer A D)
      → IsStream (length xs) m (hartley_frames ops gains enabled xs m)
  unfolding hartley_frames
  hartley_frames-IsStream [] m = record { frames_made = refl; heard = refl; in_phase = refl }
  hartley_frames-IsStream (x ∷ xs) m =
      let r = hartley_frame ops gains enabled x.1 x.0 m in
      IsStream-cons (length xs) m r.1 r.0 _ refl refl (hartley_frames-IsStream xs r.1)

  length-paired {ℓ} :
      {B : Type ℓ} (xs : List B) (i : ℕ) (other : List A)
      → length (paired ops gains enabled xs i other) ≡ length xs
  unfolding paired
  length-paired [] i other = refl
  length-paired (x ∷ xs) i other = ap suc (length-paired xs (suc i) other)

  -- The first loop of the filter-based modulator.
  record IsFirstLoop (n : ℕ) (m : Mixer A D) (r : List A × Mixer A D) : Type 0 where
    made : length (r.0) ≡ n
    unheard : (r.1).rds_enc ≡ m.rds_enc
    restored : record (r.1).sin_osc { current_phase = m.sin_osc.current_phase } ≡ m.sin_osc

  both_bands-IsFirstLoop :
      (xs : List (A × A)) (m : Mixer A D)
      → IsFirstLoop
          (length xs)
          m
          (frames ops gains enabled (both_bands_frame ops gains enabled) xs m)
  unfolding frames
  both_bands-IsFirstLoop [] m = record { made = refl; unheard = refl; restored = refl }
  both_bands-IsFirstLoop (x ∷ xs) m =
      let v = both_bands-IsFirstLoop xs (both_bands_frame ops gains enabled x.0 x.1 m).1 in
      record {
        made = ap suc v.made;
        unheard = v.unheard;
        restored =
            ap (λ (o : Osc D). record o { current_phase = m.sin_osc.current_phase }) v.restored;
      }

  length-overlay :
      (buf xs : List A) → length xs ≤ length buf → length (overlay buf 0 xs) ≡ length buf
  length-overlay buf xs h =
      omega (arith, h, length-append xs (drop (0 + length xs) buf), length-drop (0 + length xs) buf)

  -- A stream from a mixer that differs only elsewhere.
  IsStream-same :
      (n k : ℕ) (m m' : Mixer A D) (r : List A × Mixer A D)
      → k ≡ n
      → m'.rds_enc ≡ m.rds_enc
      → m'.sin_osc ≡ m.sin_osc
      → IsStream k m' r
      → IsStream n m r
  IsStream-same n k m m' r l e f v = record {
    frames_made = v.frames_made ∙ l;
    heard = v.heard ∙ ap (λ (i : ℕ). played i m'.rds_enc) l ∙ ap (λ enc. played n enc) e;
    in_phase = v.in_phase ∙ ap (λ (i : ℕ). turned i m'.sin_osc) l ∙ ap (λ osc. turned n osc) f;
  }

  length-map-take : (f : A → A) (k n : ℕ) (xs : List A) → k ≤ n → length (map f (take k xs)) ≤ n
  length-map-take f k n xs h = omega (arith, h, length-map f (take k xs), length-take k xs)

  length-lpf_filter_apply :
      (lpf : Lpf A) (xs : List A) (n : ℕ) (gain : A)
      → length (lpf_filter_apply ops lpf xs n gain).1 ≤ n
  unfolding lpf_filter_apply
  length-lpf_filter_apply lpf xs n gain = length-map-take _ (n % 2 ^ 16) n _ (omega arith)

  length-ssb_lpf :
      (lpf : Lpf A) (bands : List A) (n : ℕ) (gain : A)
      → length bands ≡ n
      → length (
          paired ops gains enabled (overlay bands 0 (lpf_filter_apply ops lpf bands n gain).1) 0 [])
        ≡ n
  length-ssb_lpf lpf bands n gain e =
      length-paired (overlay bands 0 (lpf_filter_apply ops lpf bands n gain).1) 0 []
      ∙ length-overlay bands (lpf_filter_apply ops lpf bands n gain).1
          (omega (arith, e, length-lpf_filter_apply lpf bands n gain))
      ∙ e

  ssb_lpf-IsStream :
      (xs : List (A × A)) (m : Mixer A D)
      → IsStream (length xs) m (ssb_lpf_generator ops gains enabled xs m)
  unfolding ssb_lpf_generator IsFrame
  ssb_lpf-IsStream xs m =
      let first = both_bands-IsFirstLoop xs m in
      IsStream-same (length xs) _ m _ _
        (length-ssb_lpf _ _ (length xs) (ops.times gains.stereo_carrier_gain (ops.literal 20))
          first.made)
        first.unheard first.restored
        (frames-IsStream (pilot_frame ops gains enabled) _ _ (λ x y m. (refl, refl)))

  -- Every modulation of the stereo signal makes as many samples of the multiplex signal as there are
  -- pairs of samples, takes that many samples of the RDS stream, in order, and moves the oscilator's
  -- phase that many times: the RDS stream and the phase do not depend on the modulation.
  pub get_mpx_samples-IsStream :
      (sm : StereoModulation) (xs : List (A × A)) (m : Mixer A D)
      → IsStream (length xs) m (get_mpx_samples ops gains enabled sm xs m)
  unfolding get_mpx_samples mono_generator dsb_generator hartley_generator IsFrame
  get_mpx_samples-IsStream mono xs m =
      frames-IsStream (mono_frame ops gains enabled) xs m (λ x y m. (refl, refl))
  get_mpx_samples-IsStream dsb xs m =
      frames-IsStream (dsb_frame ops gains enabled) xs m (λ x y m. (refl, refl))
  get_mpx_samples-IsStream ssb_lpf xs m = ssb_lpf-IsStream xs m
  get_mpx_samples-IsStream ssb_hartley xs m =
      IsStream-same (length xs) _ m _ _ (length-paired xs 0 _) refl refl
        (hartley_frames-IsStream _ _)
