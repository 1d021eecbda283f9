-- ===== src/Fmmod/Period.antt =====
-- What one period of the processing thread leaves.
use jmpxrds.Base.{ℕ, List, [], ◌∷◌, map, length, Option, none, some, Bool, true, false, ◌≡◌}
use jmpxrds.Fmmod.Oscilator.{Arith}
use jmpxrds.Fmmod.Mixing.{Gains, Mixer, StereoModulation, get_mpx_samples}
use jmpxrds.Fmmod.Stream.{played, turned}
use jmpxrds.Fmmod.Process.{
  no_locks, TryLock, taken, busy, refused, Instance, Period, filter_audio, sum_and_difference,
}
use jmpxrds.Fmmod.Sent.{IsMore, IsPart, is_none}

module _ {A D : Type 0} (ops : Arith A D) (gains : Gains A) (enabled : Bool) (w : Period A) where
  -- The frames of audio that the period brings.
  abbrev pub num_frames : Option (List (A × A)) → ℕ
  num_frames none = 0
  num_frames (some xs) = length xs

  -- After a period of `n` frames.
  pub record IsDone (n : ℕ) (fm : Instance A D) (r : Instance A D × Bool) : Type 0 where
    pub unlocked : (r.0).locks ≡ no_locks
    pub heard : (r.0).mixer.rds_enc ≡ played ops gains enabled n fm.mixer.rds_enc
    pub in_phase : (r.0).mixer.sin_osc ≡ turned ops gains enabled n fm.mixer.sin_osc
    pub wrote : IsPart fm.num_out_samples fm.on_sock (r.0).on_sock
    pub pushed : IsMore fm.num_out_samples fm.on_rtp (r.0).on_rtp

  -- Whether the resampler fails, on the way up or on the way down.
  pub resampler_fails : Option (List (A × A)) → StereoModulation → Mixer A D → Bool
  unfolding is_none
  resampler_fails none sm m = true
  resampler_fails (some []) sm m = false
  resampler_fails (some (x ∷ xs)) sm m = is_none (
      w.downsample
        (get_mpx_samples ops gains enabled sm
          (map (sum_and_difference ops gains enabled w) (x ∷ xs)) m).0)

  -- The frames that the period brings, and whether it fails.
  pub frames_of : TryLock → Instance A D → ℕ
  frames_of taken fm = num_frames (
      w.upsample (filter_audio ops gains enabled w fm).inbuf_l
        (filter_audio ops gains enabled w fm).inbuf_r)
  frames_of busy fm = 0
  frames_of refused fm = 0

  pub fails_of : TryLock → Instance A D → Bool
  fails_of taken fm =
      let filtered = filter_audio ops gains enabled w fm in
      resampler_fails (w.upsample filtered.inbuf_l filtered.inbuf_r) fm.stereo_modulation fm.mixer
  fails_of busy fm = false
  fails_of refused fm = false
