-- ===== src/Fmmod/Accept.antt =====
-- Which periods of audio the callback takes.
use jmpxrds.Base.{map, ◌+◌, List, length, Bool, false, if◌then◌else◌, ◌≡◌}
use jmpxrds.Base.Int.{ℤ, pos, minus}
use jmpxrds.Fmmod.Oscilator.{Arith}
use jmpxrds.Fmmod.Filters.{same_mode, no_preemph}
use jmpxrds.Fmmod.Input.{Input, emphasise_frames}

module _ {A D : Type 0} (ops : Arith A D) (audio_gain : A) where
  -- What the input buffer is to hold: the frames, through the filters where there is a pre-emphasis,
  -- and each of the two channels times the gain.
  abbrev pub taken_frames : List (A × A) → Input A → List (A × A)
  taken_frames xs fm =
      map (λ (x : A × A). (ops.times x.0 audio_gain, ops.times x.1 audio_gain))
        (if same_mode fm.preemph_tau no_preemph then xs else (emphasise_frames ops xs fm).1)

  -- A callback whose period is taken if `takes`, and refused with an error if `refuses`.
  pub record IsCallback (takes refuses : Bool) (xs : List (A × A)) (fm : Input A) (r : Input A × ℤ)
      : Type 0 where
    pub code : r.1 ≡ (if refuses then minus 1 else pos 0)
    pub triggers : (r.0).signals ≡ (if takes then fm.signals + 1 else fm.signals)
    pub lock_as_before : (r.0).inbuf_locked ≡ fm.inbuf_locked
    pub whole : length (r.0).inbuf ≡ (if takes then length xs else length fm.inbuf)
    pub frames : (r.0).inbuf ≡ (if takes then taken_frames xs fm else fm.inbuf)
    pub skipped : takes ≡ false → r.0 ≡ fm
