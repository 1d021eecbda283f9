-- ===== src/Tests/Processing.antt =====
-- One period of the modulator on samples that are natural numbers.
use jmpxrds.Base.{ℕ, ◌+◌, ◌*◌, ◌/◌, ◌%◌, [], ◌∷◌, map, some, true, false, ltb, replicate}
use jmpxrds.Fmmod.Oscilator.{Arith, Osc, sine, cosine}
use jmpxrds.Fmmod.Filters.{Plans, Lpf, Preemph, us50, no_preemph}
use jmpxrds.Fmmod.Input.{Input}
use jmpxrds.Fmmod.Mixing.{Gains, ssb_lpf}
use jmpxrds.Fmmod.Process.{Instance, Period, taken, written, no_locks}
use jmpxrds.Rtp.Receivers.{active}
use jmpxrds.Tests.Running.{encoder_1}

-- Phases are numbers of steps of a period of 12; there are no negative samples, and waves are the phase.
abbrev pub numbers : Arith ℕ ℕ
numbers = record {
  plus = λ x y. x + y;
  times = λ x y. x * y;
  negated = λ x. x;
  above = λ x y. ltb y x;
  literal = λ n. n / 10;
  over = λ x n. x / n;
  start = 0;
  period_of = λ n. 1;
  advance = λ a b. (a + b) % 12;
  at_freq = λ a n. (a * n) % 12;
  sin = λ a. a;
  cos = λ a. a;
}

abbrev pub plans_1 : Plans ℕ
plans_1 = record {
  dft = λ xs old. map (λ (x : ℕ). (x, 0)) xs;
  ift = λ bins. map (λ (b : ℕ × ℕ). b.0) bins;
}

abbrev pub lpf_1 : Lpf ℕ
lpf_1 = record {
  period_size = 2;
  num_bins = 4;
  middle_bin = 3;
  overlap_len = 2;
  filter_resp = replicate 3 (1, 0);
  complex_buff = replicate 3 (0, 0);
  real_in = replicate 4 0;
  plans = plans_1;
}

abbrev gains_1 : Gains ℕ
gains_1 = record {
  audio_gain = 1;
  pilot_gain = 1;
  rds_gain = 1;
  stereo_carrier_gain = 2;
  mpx_gain = 1;
}

abbrev osc_1 : Osc ℕ
osc_1 = record { phase_step = 1; current_phase = 3; sample_rate = 228000; kind = sine }

abbrev fm_1 : Instance ℕ ℕ
fm_1 = record {
  num_in_samples = 2;
  num_out_samples = 2;
  inbuf_l = 5 ∷ 6 ∷ [];
  inbuf_r = 1 ∷ 2 ∷ [];
  lpf_l = lpf_1;
  lpf_r = lpf_1;
  mixer = record {
    sin_osc = osc_1;
    cos_osc = record osc_1 { kind = cosine };
    lpf = lpf_1;
    ht = record {
      num_bins = 2;
      complex_buff = replicate 2 (0, 0);
      real_buff = replicate 2 0;
      plans = plans_1;
    };
    rds_enc = encoder_1;
  };
  use_audio_lpf = true;
  stereo_modulation = ssb_lpf;
  peak_mpx_out = 0;
  out_sock = false;
  rtp_state = active;
  on_sock = [];
  on_rtp = [];
  locks = no_locks;
}

abbrev period_1 : Period ℕ
period_1 = record {
  trylock = taken;
  upsample = λ l r. some ((1, 2) ∷ (3, 4) ∷ (5, 6) ∷ []);
  downsample = λ xs. some (7 ∷ 8 ∷ []);
  open_ok = true;
  write = written 2;
  room = some 8;
}

abbrev no_filter : Preemph ℕ
no_filter = record {
  last_in = 0;
  last_out = (0, 0);
  ataps_50 = (1, 0);
  btaps_50 = (0, 0);
  ataps_75 = (1, 0);
  btaps_75 = (0, 0);
}

abbrev input_1 : Input ℕ
input_1 = record {
  active = true;
  num_in_samples = 2;
  inbuf = (0, 0) ∷ (0, 0) ∷ [];
  fmprf_l = no_filter;
  fmprf_r = no_filter;
  prev_mode = no_preemph;
  preemph_tau = us50;
  peak_audio_in = (0, 0);
  inbuf_locked = false;
  signals = 0;
}
