-- ===== src/Encoder.antt =====
-- rds_encoder.c: the encoder around the group generator: `rds_get_next_upsampled_group` fills the
-- output buffer that is not being played, `rds_get_next_sample` plays the other and swaps them,
-- `rds_encoder_init` and `rds_encoder_destroy` take and release what the encoder holds.
-- Samples, and the resampler, are not this code's: they are parameters. What the operating system
-- and the JACK library answer is a list of choices.
pub mod Playback
pub mod Lifecycle
use jmpxrds.Base.{
  bit_or, ℕ, ◌+◌, ◌*◌, List, [], Option, none, some, Bool, true, false, not, ◌||◌, length, get_or,
  replicate, ◌==◌, ltb, if◌then◌else◌,
}
use jmpxrds.Base.Int.{ℤ, pos, minus, is_neg}
use jmpxrds.Modulation.{Group}
use jmpxrds.Config.State.{State}
use jmpxrds.Group.Fill.{Filled}

pub data Status : Type 0 where
  inactive active terminated failed : Status

abbrev pub is_active : Status → Bool
is_active active = true
is_active inactive = false
is_active terminated = false
is_active failed = false

module _ (S : Type 0) where
  -- `struct rds_upsampled_group`; the waveform is `none` once it is freed, or before it is there.
  pub record Outbuf : Type 0 where
    pub waveform : Option (List S)
    pub waveform_samples : ℕ
    pub result : ℤ

  -- `struct rds_encoder`, and the static `samples_out`, which starts at 0. `state` is the mapped
  -- shared memory, `lock_destroys` how often the mutex and the condition were destroyed, and
  -- `signals` counts the triggers of the main loop.
  pub record Encoder : Type 0 where
    pub outbuf_0 : Outbuf
    pub outbuf_1 : Outbuf
    pub curr_outbuf_idx : ℕ
    pub upsampled_waveform_len : ℕ
    pub status : Status
    pub samples_out : ℕ
    pub state : Option State
    pub lock_destroys : ℕ
    pub signals : ℕ

abbrev pub other_idx : ℕ → ℕ
other_idx i = if i == 0 then 1 else 0

module _ {S : Type 0} where
  abbrev pub outbuf : Encoder S → ℕ → Outbuf S
  outbuf enc i = if i == 0 then enc.outbuf_0 else enc.outbuf_1

  abbrev pub set_outbuf : Encoder S → ℕ → Outbuf S → Encoder S
  set_outbuf enc i b = record enc {
    outbuf_0 = if i == 0 then b else enc.outbuf_0;
    outbuf_1 = if i == 0 then enc.outbuf_1 else b;
  }

  -- A read of a waveform: `zero` stands for what lies outside.
  abbrev pub sample_at : S → Outbuf S → ℕ → S
  sample_at zero b i = elim b.waveform [ none ↦ zero | some xs ↦ get_or xs i zero ]

  -- `rds_get_next_upsampled_group`, with the group that the scheduler gave and the resampler, which
  -- is told of the room in the buffer and gives samples or an error. `none` is the NULL of an
  -- encoder that is not active.
  unfoldable pub next_upsampled_group :
      (List ℤ → ℕ → Option (List S)) → Filled → Encoder S → Option (Encoder S)
  next_upsampled_group upsample next_group enc =
      let out_idx = other_idx enc.curr_outbuf_idx in
      let b = outbuf enc out_idx in
      if not (is_active enc.status)
      then none
      else some (
          set_outbuf enc out_idx (
            if is_neg next_group.ret
            then record b { result = minus 1 }
            else elim (upsample next_group.group.samples_buffer enc.upsampled_waveform_len) [
              | none ↦ record b { waveform_samples = 0; result = minus 2 }
              | some xs ↦ record {
                waveform = some xs;
                waveform_samples = length xs;
                result = pos 0;
              }
            ]))

  -- `rds_get_next_sample`, for a state that is enabled or not.
  unfoldable pub get_next_sample : S → Bool → Encoder S → S × Encoder S
  get_next_sample zero enabled enc =
      let b = outbuf enc enc.curr_outbuf_idx in
      let idx' = other_idx enc.curr_outbuf_idx in
      if not (is_active enc.status) || not enabled
      then (zero, enc)
      else if ltb enc.samples_out b.waveform_samples
      then (sample_at zero b enc.samples_out, record enc { samples_out = enc.samples_out + 1 })
      else (
        sample_at zero (outbuf enc idx') 0,
        record enc { curr_outbuf_idx = idx'; signals = enc.signals + 1; samples_out = 1 },
      )

  -- The end of `rds_encoder_destroy`.
  abbrev pub release : Encoder S → Encoder S
  release enc = record enc {
    status = terminated;
    state = none;
    lock_destroys = enc.lock_destroys + 1;
    outbuf_0 = record (enc.outbuf_0) { waveform = none };
    outbuf_1 = record (enc.outbuf_1) { waveform = none };
  }

  -- `rds_encoder_destroy`; the Boolean says whether SIGTERM is raised. The join of an active
  -- encoder's main loop waits until that loop has woken up, left its `while`, and called
  -- `rds_encoder_destroy` itself, with the status `inactive` that is set here.
  unfoldable pub destroy : Encoder S → Encoder S × Bool
  destroy enc = elim enc.status [
    | inactive ↦ (release enc, false)
    | failed ↦ (release enc, true)
    | terminated ↦ (enc, false)
    | active ↦
        (release (release (record enc { status = inactive; signals = enc.signals + 1 })), false)
  ]

  -- `rds_main_loop`, from a trigger to the next wait or to the end of the thread: the encoder,
  -- whether the loop goes on, and whether SIGTERM is raised.
  unfoldable pub main_loop_pass :
      (List ℤ → ℕ → Option (List S)) → Filled → Encoder S → Encoder S × Bool × Bool
  unfolding destroy next_upsampled_group
  main_loop_pass upsample next_group enc = elim (next_upsampled_group upsample next_group enc) [
    | none ↦ let (enc', raised) = destroy enc in (enc', false, raised)
    | some enc' ↦
        if is_neg ((outbuf enc' (other_idx enc'.curr_outbuf_idx)).result)
        then (let (enc'', raised) = destroy (record enc' { status = failed }) in
            (enc'', false, raised))
        else (enc', true, false)
  ]

abbrev ms_default : ℕ
ms_default = 1

abbrev di_stereo : ℕ
di_stereo = 0x1

abbrev di_dynpty : ℕ
di_dynpty = 0x8

-- What the calls of `rds_encoder_init` to others answer: the shared memory, if it is given, two
-- buffers and the code of the call for a thread. A mapping without memory, on which the function writes to
-- NULL, is left out.
pub record Answers : Type 0 where
  pub shm : Option State
  pub malloc_0 : Bool
  pub malloc_1 : Bool
  pub thread_code : ℤ

module _ {S : Type 0} where
  abbrev pub no_outbuf : Outbuf S
  no_outbuf = record { waveform = none; waveform_samples = 0; result = pos 0 }

  -- After `memset`, and with the locks.
  abbrev pub cleared : Encoder S
  cleared = record {
    outbuf_0 = no_outbuf;
    outbuf_1 = no_outbuf;
    curr_outbuf_idx = 0;
    upsampled_waveform_len = 0;
    status = inactive;
    samples_out = 0;
    state = none;
    lock_destroys = 0;
    signals = 0;
  }

  -- The exit by `cleanup` with a negative code.
  abbrev pub fail_init : ℕ → Encoder S → Encoder S × Bool × ℤ
  fail_init code enc = let (enc', raised) = destroy enc in (enc', raised, minus code)

  -- `rds_encoder_init` of an encoder that is not NULL; `frames` is the number of samples that
  -- `num_resampled_samples` gives, and a sample takes four bytes. The result is the encoder,
  -- whether SIGTERM was raised, and the return code.
  unfoldable pub init : S → ℕ → Answers → Encoder S × Bool × ℤ
  unfolding destroy
  init zero frames answers =
      let len = frames * 4 in
      let buffer = record no_outbuf { waveform = some (replicate frames zero) } in
      elim answers.shm [
        | none ↦ (cleared, false, minus 2)
        | some mem ↦
            let with_state = record cleared { state = some mem; upsampled_waveform_len = len } in
            let one = record with_state { outbuf_0 = buffer } in
            let two = record one {
              outbuf_1 = buffer;
              state = some (record mem { ms = ms_default; di = bit_or di_stereo di_dynpty });
            } in
            if not answers.malloc_0
            then fail_init 3 with_state
            else if not answers.malloc_1
            then fail_init 4 one
            else if is_neg answers.thread_code
            then fail_init 5 (record two { status = failed })
            else (record two { status = active }, false, answers.thread_code)
      ]
