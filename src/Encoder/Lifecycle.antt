-- ===== src/Encoder/Lifecycle.antt =====
-- What `rds_encoder_init` takes, and `rds_encoder_destroy` gives back.
use mathlib.Core.Option
use jmpxrds.Base.{
  ℕ, ◌+◌, ◌*◌, Option, none, some, Bool, true, false, ◌≡◌, refl, replicate, if◌then◌else◌, not,
  ◌&&◌,
}
use jmpxrds.Config.State.{State}
use jmpxrds.Base.Int.{ℤ, pos, negsuc, minus, is_neg, eqb_ℤ}
use jmpxrds.Encoder.{
  Encoder, Status, active, inactive, terminated, failed, Answers, destroy, init, no_outbuf, cleared,
  get_next_sample,
}

-- Nothing but, perhaps, the locks is held.
pub record Released {S : Type 0} (enc : Encoder S) : Type 0 where
  pub no_waveform_0 : enc.outbuf_0.waveform ≡ none
  pub no_waveform_1 : enc.outbuf_1.waveform ≡ none
  pub unmapped : enc.state ≡ none

-- How often one `rds_encoder_destroy` has the mutex and the condition destroyed.
abbrev pub destroys : Status → ℕ
destroys inactive = 1
destroys failed = 1
destroys terminated = 0
destroys active = 2

abbrev pub is_some : {A : Type 0} → Option A → Bool
is_some none = false
is_some (some a) = true

abbrev pub is_failed : Status → Bool
is_failed failed = true
is_failed inactive = false
is_failed active = false
is_failed terminated = false

module _ {S : Type 0} (z : S) where
  pub record Destroyed (enc : Encoder S) (r : Encoder S × Bool) : Type 0 where
    pub ended : (r.0).status ≡ terminated
    pub again : destroy (r.0) ≡ (r.0, false)
    pub silent : (enabled : Bool) → get_next_sample z enabled (r.0) ≡ (z, r.0)
    pub raises : r.1 ≡ is_failed enc.status
    pub lock_count : (r.0).lock_destroys ≡ enc.lock_destroys + destroys enc.status

  -- What an initialisation has to leave, by its return code.
  pub record Initialised (frames : ℕ) (answers : Answers) (r : Encoder S × Bool × ℤ) : Type 0 where
    pub outcome :
        if is_neg (r.2)
        then Released (r.0)
        else ((r.0 ≡ record cleared {
          outbuf_0 = record no_outbuf { waveform = some (replicate frames z) };
          outbuf_1 = record no_outbuf { waveform = some (replicate frames z) };
          upsampled_waveform_len = frames * 4;
          state = Option.map (λ (m : State). record m { ms = 1; di = 9 }) answers.shm;
          status = active;
        })
            × (r.1 ≡ false))
    pub locks_left : (r.0).lock_destroys ≡ (if is_neg (r.2) && is_some answers.shm then 1 else 0)
    pub raised : r.1 ≡ eqb_ℤ (r.2) (minus 5)
    pub succeeds :
        is_neg (r.2)
        ≡ not (
            is_some answers.shm
            && answers.malloc_0
            && answers.malloc_1
            && not (is_neg answers.thread_code))

  Initialised-answers :
      (frames : ℕ) (a : Option State) (b c : Bool) (d : ℤ)
      → Initialised frames
          (record { shm = a; malloc_0 = b; malloc_1 = c; thread_code = d })
          (init z frames (record { shm = a; malloc_0 = b; malloc_1 = c; thread_code = d }))
  unfolding init destroy
  Initialised-answers frames none b c d = record {
    outcome = record { no_waveform_0 = refl; no_waveform_1 = refl; unmapped = refl };
    locks_left = refl;
    raised = refl;
    succeeds = refl;
  }
  Initialised-answers frames (some m) false c d = record {
    outcome = record { no_waveform_0 = refl; no_waveform_1 = refl; unmapped = refl };
    locks_left = refl;
    raised = refl;
    succeeds = refl;
  }
  Initialised-answers frames (some m) true false d = record {
    outcome = record { no_waveform_0 = refl; no_waveform_1 = refl; unmapped = refl };
    locks_left = refl;
    raised = refl;
    succeeds = refl;
  }
  Initialised-answers frames (some m) true true (negsuc n) = record {
    outcome = record { no_waveform_0 = refl; no_waveform_1 = refl; unmapped = refl };
    locks_left = refl;
    raised = refl;
    succeeds = refl;
  }
  Initialised-answers frames (some m) true true (pos n) = record {
    outcome = (refl, refl);
    locks_left = refl;
    raised = refl;
    succeeds = refl;
  }

  -- `rds_encoder_init`, whatever the calls of others answer, but for a mapping of the shared memory
  -- without memory: it succeeds exactly when the shared memory and both buffers are given and the
  -- call for the thread gives no negative code. Then the encoder is active, with its state's
  -- defaults set and two silent buffers, also where that code is an error number above 0 and there is no thread, and the result is that code. When it
  -- fails it holds no buffer and no shared memory, SIGTERM is raised exactly when the code was
  -- negative, and the mutex and the condition are destroyed once, but not when the shared memory
  -- was refused.
  pub init-Initialised :
      (frames : ℕ) (answers : Answers) → Initialised frames answers (init z frames answers)
  init-Initialised frames answers =
      Initialised-answers frames answers.shm answers.malloc_0 answers.malloc_1 answers.thread_code
