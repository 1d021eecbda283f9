-- ===== src/Tests/Running.antt =====
-- The encoder at concrete inputs.
use jmpxrds.Group.Fill.{Filled}
use jmpxrds.Encoder.{Encoder, active, main_loop_pass, init}
use jmpxrds.Encoder.Playback.{PlaysOn, play-main_loop_pass}
use jmpxrds.Encoder.Lifecycle.{Initialised, init-Initialised}
use jmpxrds.Base.{ℕ, List, [], ◌∷◌, Option, some, true, false, refl}
use jmpxrds.Base.Int.{ℤ, pos}
use jmpxrds.Tests.Data.{group_1, state_1, statics_1}

-- An encoder that is playing its first buffer, of three samples, with one sample played.
abbrev pub encoder_1 : Encoder ℕ
encoder_1 = record {
  outbuf_0 = record { waveform = some (7 ∷ 8 ∷ 9 ∷ []); waveform_samples = 3; result = pos 0 };
  outbuf_1 = record { waveform = some (0 ∷ 0 ∷ 0 ∷ []); waveform_samples = 0; result = pos 0 };
  curr_outbuf_idx = 0;
  upsampled_waveform_len = 12;
  status = active;
  samples_out = 1;
  state = some state_1;
  lock_destroys = 0;
  signals = 1;
}

-- A resampler that gives three samples.
abbrev upsample_1 : List ℤ → ℕ → Option (List ℕ)
upsample_1 samples len = some (4 ∷ 5 ∷ 6 ∷ [])

abbrev filled_1 : Filled
filled_1 = record { st = state_1; statics = statics_1; group = group_1; ret = pos 0 }

play-main_loop_pass_example :
    PlaysOn {S = ℕ} 0
      (main_loop_pass upsample_1 filled_1 encoder_1).0
      (7 ∷ 8 ∷ 9 ∷ [])
      (4 ∷ 5 ∷ 6 ∷ [])
      1
      2
play-main_loop_pass_example =
    play-main_loop_pass 0 upsample_1 filled_1 encoder_1 (7 ∷ 8 ∷ 9 ∷ []) 4 (5 ∷ 6 ∷ []) 2 refl refl
      refl refl refl

init-Initialised_example :
    Initialised {S = ℕ} 0 3
      (record { shm = some state_1; malloc_0 = true; malloc_1 = false; thread_code = pos 0 })
      (init {S = ℕ} 0 3
        (record { shm = some state_1; malloc_0 = true; malloc_1 = false; thread_code = pos 0 }))
init-Initialised_example =
    init-Initialised {S = ℕ} 0 3
      (record { shm = some state_1; malloc_0 = true; malloc_1 = false; thread_code = pos 0 })
