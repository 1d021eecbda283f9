-- ===== src/Tool/Modulator.antt =====
-- fmmod_tool.c, and `fmmod_init_ctl` of fmmod.c: the modulator's control. A sample's type is an
-- argument, with the percentages of it.
use jmpxrds.Base.{
  ℕ, List, [], ◌∷◌, take, Bool, true, false, ◌&&◌, ◌||◌, ◌==◌, leb, ltb, if◌then◌else◌,
}
use jmpxrds.Base.Int.{ℤ, pos, minus, wrap}

-- `struct fmmod_control`, less the peaks.
pub record FmmodControl (A : Type 0) : Type 0 where
  pub audio_gain : A
  pub pilot_gain : A
  pub rds_gain : A
  pub stereo_carrier_gain : A
  pub mpx_gain : A
  pub stereo_modulation : ℕ
  pub use_audio_lpf : ℕ
  pub preemph_tau : ℕ
  pub sample_rate : ℕ
  pub max_samples : ℕ

abbrev pub fmmod_dsb : ℕ
fmmod_dsb = 0

abbrev pub fmmod_ssb_hartley : ℕ
fmmod_ssb_hartley = 1

abbrev pub fmmod_ssb_lpf : ℕ
fmmod_ssb_lpf = 2

abbrev pub fmmod_mono : ℕ
fmmod_mono = 3

abbrev pub lpf_preemph_50us : ℕ
lpf_preemph_50us = 0

abbrev pub lpf_preemph_75us : ℕ
lpf_preemph_75us = 1

abbrev pub lpf_preemph_none : ℕ
lpf_preemph_none = 2

abbrev pub lpf_preemph_max : ℕ
lpf_preemph_max = 3

-- The options; each has the text of its argument.
pub data FmOption : Type 0 where
  show_gains unknown : FmOption
  opt_audio opt_mpx opt_pilot opt_rds opt_carrier opt_stereo opt_lpf opt_preemph : List ℕ → FmOption

-- The control, and the variable `ret`.
pub record FmTool (A : Type 0) : Type 0 where
  pub ctl : FmmodControl A
  pub ret : ℤ

-- The choices of a mode by its number.
abbrev pub stereo_of : ℕ → ℕ
stereo_of n =
    if n == fmmod_dsb || ltb fmmod_mono n
    then fmmod_dsb
    else if n == fmmod_ssb_hartley
    then fmmod_ssb_hartley
    else if n == fmmod_ssb_lpf
    then fmmod_ssb_lpf
    else fmmod_mono

abbrev pub preemph_of : ℕ → ℕ
preemph_of n =
    if n == 0 || leb lpf_preemph_max n
    then lpf_preemph_50us
    else if n == 1
    then lpf_preemph_75us
    else lpf_preemph_none

module _ {A : Type 0} (percent : ℤ → A) where
  -- The literals 0.45, 0.04, 0.03, 0.8 and 0.75 are these percentages.
  unfoldable pub init_ctl : (num_out_samples : ℕ) → FmmodControl A
  init_ctl num_out_samples = record {
    audio_gain = percent (pos 45);
    pilot_gain = percent (pos 4);
    rds_gain = percent (pos 3);
    stereo_carrier_gain = percent (pos 80);
    mpx_gain = percent (pos 75);
    stereo_modulation = fmmod_dsb;
    use_audio_lpf = 1;
    preemph_tau = lpf_preemph_50us;
    sample_rate = 192000;
    max_samples = num_out_samples;
  }

  module _ (strtol : List ℕ → ℤ) where
    -- `strtol` in the base 10, of at most three characters.
    abbrev pub gain_of : List ℕ → A
    gain_of arg = percent (strtol (take 3 arg))

    -- Of one character, masked to `w` bits.
    abbrev pub digit_of : ℕ → List ℕ → ℕ
    digit_of w arg = wrap w (strtol (take 1 arg))

    abbrev pub with_ctl : FmTool A → FmmodControl A → FmTool A × Bool
    with_ctl t ctl = (record t { ctl = ctl }, true)

    -- One option; the Boolean says whether the next one is read.
    unfoldable pub handle_fm : FmOption → FmTool A → FmTool A × Bool
    handle_fm show_gains t = (t, true)
    handle_fm unknown t = (record t { ret = minus 1 }, false)
    handle_fm (opt_audio arg) t = with_ctl t (record t.ctl { audio_gain = gain_of arg })
    handle_fm (opt_mpx arg) t = with_ctl t (record t.ctl { mpx_gain = gain_of arg })
    handle_fm (opt_pilot arg) t = with_ctl t (record t.ctl { pilot_gain = gain_of arg })
    handle_fm (opt_rds arg) t = with_ctl t (record t.ctl { rds_gain = gain_of arg })
    handle_fm (opt_carrier arg) t = with_ctl t (record t.ctl { stereo_carrier_gain = gain_of arg })
    handle_fm (opt_stereo arg) t =
        with_ctl t (record t.ctl { stereo_modulation = stereo_of (digit_of 3 arg) })
    handle_fm (opt_lpf arg) t = with_ctl t (record t.ctl { use_audio_lpf = digit_of 1 arg })
    handle_fm (opt_preemph arg) t =
        let n = digit_of 2 arg in
        with_ctl (record t { ret = pos n }) (record t.ctl { preemph_tau = preemph_of n })

    unfoldable pub handle_all_fm : List FmOption → FmTool A → FmTool A × Bool
    unfolding handle_fm
    handle_all_fm [] t = (t, true)
    handle_all_fm (o ∷ os) t =
        let (t', goes_on) = handle_fm o t in
        let rest = handle_all_fm os t' in if goes_on then rest else (t', false)

    abbrev pub none_given : List FmOption → Bool
    none_given [] = true
    none_given (o ∷ os) = false

    -- `main`, with the shared memory attached: the control and the code.
    unfoldable pub fmmod_tool : List FmOption → FmmodControl A → FmTool A
    unfolding handle_all_fm
    fmmod_tool os ctl =
        let (t, goes_on) = handle_all_fm os (record { ctl = ctl; ret = pos 0 }) in
        if goes_on && none_given os then record t { ret = minus 1 } else t
