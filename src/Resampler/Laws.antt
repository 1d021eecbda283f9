-- ===== src/Resampler/Laws.antt =====
-- What the initialisation of the resamplers takes, and gives back when it fails.
use jmpxrds.Base.{ℕ, Bool, false, not, ◌&&◌, ◌||◌, ◌==◌, ◌≡◌, arith}
use jmpxrds.Base.Int.{ℤ, is_neg, is_zero}
use jmpxrds.Resource.{is_live, is_dangling, is_freed_twice, any}
use jmpxrds.Resampler.Life.{
  Resampler, ResamplerAnswers, init_rds, init_by, resampler_init, resampler_slots,
}

-- Whether the resamplers of audio are made: both, where the rates differ, and no negative code in a build with a thread.
abbrev pub audio_ok : ResamplerAnswers → Bool → Bool
audio_ok a same = same || (a.audio_l && a.audio_r && (not a.mt || not (is_neg a.thread)))

abbrev pub all_ok : ResamplerAnswers → (same_in same_out : Bool) → Bool
all_ok a same_in same_out = audio_ok a same_in && a.rds && (same_out || a.mpx)

-- A resampler is live where it is needed and all are.
pub record Initialised (a : ResamplerAnswers) (same_in same_out : Bool) (r : Resampler × ℤ)
    : Type 0 where
  pub code : is_neg (r.1) ≡ not (all_ok a same_in same_out)
  pub active : (r.0).active ≡ (all_ok a same_in same_out && not same_in)
  pub audio_live : is_live (r.0).audio_upsampler_l ≡ (all_ok a same_in same_out && not same_in)
  pub right_live : is_live (r.0).audio_upsampler_r ≡ (all_ok a same_in same_out && not same_in)
  pub rds_live : is_live (r.0).rds_upsampler ≡ all_ok a same_in same_out
  pub mpx_live : is_live (r.0).mpx_downsampler ≡ (all_ok a same_in same_out && not same_out)
  pub once : any is_freed_twice (resampler_slots (r.0)) ≡ false
  pub thread_left :
      (r.0).thread ≡ (not same_in && a.audio_l && a.audio_r && a.mt && is_zero a.thread)
  pub dangling : any is_dangling (resampler_slots (r.0)) ≡ (
      not (all_ok a same_in same_out)
      && ((not same_in && a.audio_l) || (audio_ok a same_in && a.rds)))

by_rates :
    (a : ResamplerAnswers) (same_in same_out : Bool)
    → Initialised a same_in same_out (init_by a same_in same_out)
unfolding init_by init_rds
by_rates a same_in same_out = ground arith

-- The initialisation succeeds exactly when each resampler that its rates need can be made and, in a
-- build with JMPXRDS_MT, the call for the left channel's thread gives no negative code; then
-- exactly these resamplers are live. As the call reports a failure by an error number above 0,
-- such a build goes on without its thread. When the initialisation fails no resampler is live, and none was deleted twice; but those
-- that were made dangle. The thread runs from then on exactly if the call for it, where it is made, gave 0.
pub resampler_init-Initialised :
    (a : ResamplerAnswers) (jack_rate osc_rate output_rate : ℕ)
    → Initialised a
        (jack_rate == osc_rate)
        (osc_rate == output_rate)
        (resampler_init a jack_rate osc_rate output_rate)
unfolding resampler_init init_by
resampler_init-Initialised a jack_rate osc_rate output_rate =
    by_rates a (jack_rate == osc_rate) (osc_rate == output_rate)
