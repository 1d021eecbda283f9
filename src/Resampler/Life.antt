-- ===== src/Resampler/Life.antt =====
-- resampler.c: `resampler_init`, `resampler_init_upsampler_threads` and `resampler_destroy`.
use jmpxrds.Base.{ℕ, List, [], ◌∷◌, Bool, true, false, not, ◌&&◌, ◌==◌, if◌then◌else◌}
use jmpxrds.Base.Int.{ℤ, pos, minus, is_neg, is_zero}
use jmpxrds.Resource.{Pointer, null, live, give_back}

-- `struct resampler_data`. `thread` is whether the left channel's thread runs, which a build with
-- JMPXRDS_MT has.
pub record Resampler : Type 0 where
  pub audio_upsampler_l : Pointer
  pub audio_upsampler_r : Pointer
  pub rds_upsampler : Pointer
  pub mpx_downsampler : Pointer
  pub audio_upsampler_bypass : Bool
  pub mpx_downsampler_bypass : Bool
  pub active : Bool
  pub thread : Bool

-- What `soxr_create` answers for each of the four; `mt` is whether JMPXRDS_MT is defined, and `thread`
-- the code of jack_client_create_thread, which is 0 or, where there is no thread, an error number.
pub record ResamplerAnswers : Type 0 where
  pub audio_l : Bool
  pub audio_r : Bool
  pub mt : Bool
  pub thread : ℤ
  pub rds : Bool
  pub mpx : Bool

abbrev pub zeroed_resampler : Resampler
zeroed_resampler = record {
  audio_upsampler_l = null;
  audio_upsampler_r = null;
  rds_upsampler = null;
  mpx_downsampler = null;
  audio_upsampler_bypass = false;
  mpx_downsampler_bypass = false;
  active = false;
  thread = false;
}

-- The thread is not woken up, nor joined.
abbrev pub resampler_destroy : Resampler → Resampler
resampler_destroy r = record r {
  active = false;
  audio_upsampler_l = give_back r.audio_upsampler_l;
  audio_upsampler_r = give_back r.audio_upsampler_r;
  rds_upsampler = give_back r.rds_upsampler;
  mpx_downsampler = give_back r.mpx_downsampler;
}

abbrev pub fail_resampler : Resampler → ℕ → Resampler × ℤ
fail_resampler r n = (resampler_destroy r, minus n)

-- From the label `audio_upsampler_bypass` on; `same` is whether the last two rates are the same.
unfoldable pub init_rds : ResamplerAnswers → (same : Bool) → Resampler → Resampler × ℤ
init_rds a same r =
    let with_rds = record r { rds_upsampler = live } in
    if not a.rds
    then fail_resampler r 5
    else if same
    then (record with_rds { mpx_downsampler_bypass = true }, pos 0)
    else if not a.mpx
    then fail_resampler with_rds 6
    else (record with_rds { mpx_downsampler = live }, pos 0)

-- `resampler_init`, by whether JACK's rate is the oscilator's, and that the output's.
unfoldable pub init_by : ResamplerAnswers → (same_in same_out : Bool) → Resampler × ℤ
unfolding init_rds
init_by a same_in same_out =
    let with_l = record zeroed_resampler { audio_upsampler_l = live } in
    let with_r = record with_l { audio_upsampler_r = live } in
    if same_in
    then init_rds a same_out (record zeroed_resampler { audio_upsampler_bypass = true })
    else if not a.audio_l
    then fail_resampler zeroed_resampler 2
    else if not a.audio_r
    then fail_resampler with_l 3
    else if a.mt && is_neg a.thread
    then fail_resampler with_r 4
    else init_rds a same_out (record with_r { active = true; thread = a.mt && is_zero a.thread })

unfoldable pub resampler_init :
    ResamplerAnswers → (jack_rate osc_rate output_rate : ℕ) → Resampler × ℤ
unfolding init_by
resampler_init a jack_rate osc_rate output_rate =
    init_by a (jack_rate == osc_rate) (osc_rate == output_rate)

-- The four resamplers.
abbrev pub resampler_slots : Resampler → List Pointer
resampler_slots r =
    r.audio_upsampler_l ∷ r.audio_upsampler_r ∷ r.rds_upsampler ∷ r.mpx_downsampler ∷ []
