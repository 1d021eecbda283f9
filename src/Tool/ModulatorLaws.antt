-- ===== src/Tool/ModulatorLaws.antt =====
-- What a run of fmmod_tool sets, by the last option of each kind.
use jmpxrds.Base.{
  ℕ, ◌-◌, ◌%◌, ◌^◌, ◌<◌, List, [], ◌∷◌, take, Bool, true, false, ◌&&◌, ◌||◌, ◌==◌, ltb,
  if◌then◌else◌, ◌≡◌, refl, arith, sym, subst,
}
use jmpxrds.Base.Int.{ℤ, pos, negsuc, minus}
use jmpxrds.Tool.Modulator.{
  FmmodControl, FmOption, show_gains, unknown, opt_audio, opt_mpx, opt_pilot, opt_rds, opt_carrier,
  opt_stereo, opt_lpf, opt_preemph, FmTool, stereo_of, preemph_of, handle_fm, handle_all_fm,
  none_given, fmmod_tool,
}

-- The letter of an option, and its argument.
abbrev pub letter : FmOption → ℕ × List ℕ
letter show_gains = (103, [])
letter unknown = (63, [])
letter (opt_audio arg) = (97, arg)
letter (opt_mpx arg) = (109, arg)
letter (opt_pilot arg) = (112, arg)
letter (opt_rds arg) = (114, arg)
letter (opt_carrier arg) = (99, arg)
letter (opt_stereo arg) = (115, arg)
letter (opt_lpf arg) = (102, arg)
letter (opt_preemph arg) = (101, arg)

abbrev pub is_unknown : FmOption → Bool
is_unknown o = (letter o).0 == 63

abbrev pub any_unknown : List FmOption → Bool
any_unknown [] = false
any_unknown (o ∷ os) = is_unknown o || any_unknown os

-- What the last option with a letter gives, up to an unknown option, or else what was there before.
abbrev pub last_of : {B : Type 0} → ℕ → (List ℕ → B) → List FmOption → B → B
last_of c f [] b = b
last_of c f (o ∷ os) b =
    if is_unknown o then b else last_of c f os (if (letter o).0 == c then f (letter o).1 else b)

-- The numbers 0 to 3 are the modes, 4 to 7 stand for the first.
abbrev pub min_mode : ℕ → ℕ
min_mode n = if ltb n 4 then n else 0

-- The numbers 0 to 2 are the modes of the preemphasis, 3 stands for the first.
abbrev pub tau : ℕ → ℕ
tau n = if ltb n 3 then n else 0

stereo_of-min_mode : (n : ℕ) → stereo_of n ≡ min_mode n
stereo_of-min_mode n = ground arith

preemph_of-tau : (n : ℕ) → preemph_of n ≡ tau n
preemph_of-tau n = ground arith

-- A tool's control and code, field by field.
pub record Has {A : Type 0} (audio mpx pilot rds carrier : A) (stereo lpf preemph : ℕ) (code : ℤ)
    (t : FmTool A) : Type 0 where
  pub has_audio : t.ctl.audio_gain ≡ audio
  pub has_mpx : t.ctl.mpx_gain ≡ mpx
  pub has_pilot : t.ctl.pilot_gain ≡ pilot
  pub has_rds : t.ctl.rds_gain ≡ rds
  pub has_carrier : t.ctl.stereo_carrier_gain ≡ carrier
  pub has_stereo : t.ctl.stereo_modulation ≡ stereo
  pub has_lpf : t.ctl.use_audio_lpf ≡ lpf
  pub has_preemph : t.ctl.preemph_tau ≡ preemph
  pub has_ret : t.ret ≡ code

-- A number modulo m.
abbrev pub low_bits : ℕ → ℤ → ℕ
low_bits m (pos n) = n % m
low_bits m (negsuc n) = m - 1 - n % m

min_mode-lt : (n : ℕ) → min_mode n < 4
min_mode-lt n = ground arith

tau-lt : (n : ℕ) → tau n < 3
tau-lt n = ground arith

low_bits-lt : (z : ℤ) → low_bits (2 ^ 1) z < 2
low_bits-lt (pos n) = omega arith
low_bits-lt (negsuc n) = omega arith

and_false : (b : Bool) → (b && false) ≡ false
and_false true = refl
and_false false = refl

or_false : (b : Bool) → (b || false) ≡ b
or_false true = refl
or_false false = refl

module _ {A : Type 0} (percent : ℤ → A) (strtol : List ℕ → ℤ) where
  -- The percentage that three characters stand for.
  abbrev pub gain : List ℕ → A
  gain arg = percent (strtol (take 3 arg))

  -- The low bits of the number that one character stands for: 2 ^ w numbers.
  abbrev pub digit : ℕ → List ℕ → ℕ
  digit w arg = low_bits (2 ^ w) (strtol (take 1 arg))

  -- Each field is what the last option for it gives; the modes by `f` and `g`.
  abbrev pub Chosen : (f g : ℕ → ℕ) → List FmOption → FmmodControl A → ℕ → FmTool A → Type 0
  Chosen f g os ctl code t =
      Has (last_of 97 gain os ctl.audio_gain) (last_of 109 gain os ctl.mpx_gain)
        (last_of 112 gain os ctl.pilot_gain) (last_of 114 gain os ctl.rds_gain)
        (last_of 99 gain os ctl.stereo_carrier_gain)
        (last_of 115 (λ arg. f (digit 3 arg)) os ctl.stereo_modulation)
        (last_of 102 (λ arg. digit 1 arg) os ctl.use_audio_lpf)
        (last_of 101 (λ arg. g (digit 2 arg)) os ctl.preemph_tau)
        (if any_unknown os then minus 1 else pos (last_of 101 (λ arg. digit 2 arg) os code)) t

  handle_all_fm-Chosen :
      (os : List FmOption) (ctl : FmmodControl A) (code : ℕ)
      → Chosen stereo_of preemph_of os ctl code
          (handle_all_fm percent strtol os (record { ctl = ctl; ret = pos code })).0
  unfolding handle_all_fm handle_fm
  handle_all_fm-Chosen [] ctl code = record {
    has_audio = refl;
    has_mpx = refl;
    has_pilot = refl;
    has_rds = refl;
    has_carrier = refl;
    has_stereo = refl;
    has_lpf = refl;
    has_preemph = refl;
    has_ret = refl;
  }
  handle_all_fm-Chosen (unknown ∷ os) ctl code = record {
    has_audio = refl;
    has_mpx = refl;
    has_pilot = refl;
    has_rds = refl;
    has_carrier = refl;
    has_stereo = refl;
    has_lpf = refl;
    has_preemph = refl;
    has_ret = refl;
  }
  handle_all_fm-Chosen (show_gains ∷ os) ctl code = handle_all_fm-Chosen os ctl code
  handle_all_fm-Chosen (opt_audio arg ∷ os) ctl code =
      handle_all_fm-Chosen os (record ctl { audio_gain = gain arg }) code
  handle_all_fm-Chosen (opt_mpx arg ∷ os) ctl code =
      handle_all_fm-Chosen os (record ctl { mpx_gain = gain arg }) code
  handle_all_fm-Chosen (opt_pilot arg ∷ os) ctl code =
      handle_all_fm-Chosen os (record ctl { pilot_gain = gain arg }) code
  handle_all_fm-Chosen (opt_rds arg ∷ os) ctl code =
      handle_all_fm-Chosen os (record ctl { rds_gain = gain arg }) code
  handle_all_fm-Chosen (opt_carrier arg ∷ os) ctl code =
      handle_all_fm-Chosen os (record ctl { stereo_carrier_gain = gain arg }) code
  handle_all_fm-Chosen (opt_stereo arg ∷ os) ctl code =
      handle_all_fm-Chosen os (record ctl { stereo_modulation = stereo_of (digit 3 arg) }) code
  handle_all_fm-Chosen (opt_lpf arg ∷ os) ctl code =
      handle_all_fm-Chosen os (record ctl { use_audio_lpf = digit 1 arg }) code
  handle_all_fm-Chosen (opt_preemph arg ∷ os) ctl code =
      handle_all_fm-Chosen os (record ctl { preemph_tau = preemph_of (digit 2 arg) }) (digit 2 arg)

  last_of-keeps :
      (P : ℕ → Type 0) (c : ℕ) (f : List ℕ → ℕ) (os : List FmOption) (b : ℕ)
      → ((arg : List ℕ) → P (f arg))
      → P b
      → P (last_of c f os b)
  last_of-keeps P c f [] b h p = p
  last_of-keeps P c f (o ∷ os) b h p =
      if-keeps (is_unknown o) _ _ p
        (last_of-keeps P c f os _ h (if-keeps ((letter o).0 == c) _ _ (h (letter o).1) p))
    where
      if-keeps : (t : Bool) (x y : ℕ) → P x → P y → P (if t then x else y)
      if-keeps true x y u v = u
      if-keeps false x y u v = v

  -- The modes are those of their enumerations.
  pub record ModesFit (ctl : FmmodControl A) : Type 0 where
    pub stereo_fits : ctl.stereo_modulation < 4
    pub lpf_fits : ctl.use_audio_lpf < 2
    pub preemph_fits : ctl.preemph_tau < 3

  -- What `main` is to give, the modes by `f` and `g`.
  abbrev pub RunBy : (f g : ℕ → ℕ) → List FmOption → FmmodControl A → FmTool A → Type 0
  RunBy f g os ctl t =
      Has (last_of 97 gain os ctl.audio_gain) (last_of 109 gain os ctl.mpx_gain)
        (last_of 112 gain os ctl.pilot_gain) (last_of 114 gain os ctl.rds_gain)
        (last_of 99 gain os ctl.stereo_carrier_gain)
        (last_of 115 (λ arg. f (digit 3 arg)) os ctl.stereo_modulation)
        (last_of 102 (λ arg. digit 1 arg) os ctl.use_audio_lpf)
        (last_of 101 (λ arg. g (digit 2 arg)) os ctl.preemph_tau)
        (if any_unknown os || none_given percent strtol os
          then minus 1
          else pos (last_of 101 (λ arg. digit 2 arg) os 0))
        t

  fmmod_tool-RunBy :
      (os : List FmOption) (ctl : FmmodControl A)
      → RunBy stereo_of preemph_of os ctl (fmmod_tool percent strtol os ctl)
  unfolding fmmod_tool handle_all_fm
  fmmod_tool-RunBy [] ctl = record {
    has_audio = refl;
    has_mpx = refl;
    has_pilot = refl;
    has_rds = refl;
    has_carrier = refl;
    has_stereo = refl;
    has_lpf = refl;
    has_preemph = refl;
    has_ret = refl;
  }
  fmmod_tool-RunBy (o ∷ os) ctl =
      rw
        (
          and_false (handle_all_fm percent strtol (o ∷ os) (record { ctl = ctl; ret = pos 0 })).1,
          or_false (any_unknown (o ∷ os)),
        )
        (handle_all_fm-Chosen (o ∷ os) ctl 0)

  pub record IsFmRun (os : List FmOption) (ctl : FmmodControl A) (t : FmTool A) : Type 0 where
    pub fits : ModesFit t.ctl
    pub has : RunBy min_mode tau os ctl t

  -- A run of fmmod_tool sets each gain to the percentage that the first three characters of the last
  -- option for it stand for. The numbers of the stereo mode, the preemphasis and the filter are that
  -- of one character, of which the low three, two and one bits count: a stereo mode is this number
  -- if it is 0 to 3, so that 9 sets the mode 1, and the first mode if it is 4 to 7; a
  -- preemphasis is it if it is 0 to 2, so that 5 sets 1, and the first for 3; the filter's switch is
  -- its bit. Options after an unknown one count for nothing. The modes, which are those of their
  -- enumerations before, stay so. The code is -1 without an option or with an unknown one, and
  -- otherwise not 0 but the last two bits of the last number for the preemphasis, if there was one.
  pub fmmod_tool-IsFmRun :
      (os : List FmOption) (ctl : FmmodControl A)
      → ModesFit ctl
      → IsFmRun os ctl (fmmod_tool percent strtol os ctl)
  fmmod_tool-IsFmRun os ctl w =
      let v : RunBy min_mode tau os ctl (fmmod_tool percent strtol os ctl) =
        subst (λ f. RunBy f tau os ctl (fmmod_tool percent strtol os ctl))
          (λ i n. stereo_of-min_mode n i)
          (subst (λ g. RunBy stereo_of g os ctl (fmmod_tool percent strtol os ctl))
            (λ i n. preemph_of-tau n i) (fmmod_tool-RunBy os ctl)) in
      record {
        has = v;
        fits = record {
          stereo_fits =
              subst (λ n. n < 4) (sym v.has_stereo)
                (last_of-keeps (λ n. n < 4) 115 (λ arg. min_mode (digit 3 arg)) os
                  ctl.stereo_modulation (λ arg. min_mode-lt (digit 3 arg)) w.stereo_fits);
          lpf_fits =
              subst (λ n. n < 2) (sym v.has_lpf)
                (last_of-keeps (λ n. n < 2) 102 (λ arg. digit 1 arg) os ctl.use_audio_lpf
                  (λ arg. low_bits-lt (strtol (take 1 arg))) w.lpf_fits);
          preemph_fits =
              subst (λ n. n < 3) (sym v.has_preemph)
                (last_of-keeps (λ n. n < 3) 101 (λ arg. tau (digit 2 arg)) os ctl.preemph_tau
                  (λ arg. tau-lt (digit 2 arg)) w.preemph_fits);
        };
      }
