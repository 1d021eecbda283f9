-- ===== src/Fmmod/Life.antt =====
-- fmmod.c: `fmmod_initialize` and `fmmod_destroy`, by what an instance holds. What JACK, malloc, FFTW,
-- libsoxr, GStreamer and the operating system answer is an argument.
use jmpxrds.Base.{ℕ, List, [], ◌∷◌, Bool, true, false, not, ◌||◌, ◌==◌, if◌then◌else◌}
use jmpxrds.Base.Int.{ℤ, pos, minus, is_neg, is_zero}
use jmpxrds.Resource.{any, Pointer}
use jmpxrds.Encoder.{Encoder, Answers, init, destroy, cleared}
use jmpxrds.Rtp.Receivers.{inactive}
use jmpxrds.Rtp.Server.{Server, ServerAnswers, rtp_server_init, rtp_server_destroy}
use jmpxrds.Resampler.Life.{
  Resampler, ResamplerAnswers, resampler_init, resampler_destroy, zeroed_resampler, resampler_slots,
}
use jmpxrds.Fmmod.Oscilator.{osc_refused, osc_sample_rate}
use jmpxrds.Fmmod.Parts.{
  Jack, JackAnswers, connect, close_jack, no_jack, jack_slots, Buffers, BufferAnswers, init_buffers,
  free_buffers, no_buffers, buffer_slots, Filters, FilterAnswers, init_filters, destroy_filters,
  no_filters, filter_slots,
}

-- What can be done with the four mutexes and the condition: `misused` is a use or a destruction of
-- what is not initialised.
pub data LockState : Type 0 where
  unmade made ended misused : LockState

abbrev pub use_locks : LockState → LockState
use_locks made = made
use_locks unmade = misused
use_locks ended = misused
use_locks misused = misused

abbrev pub end_locks : LockState → LockState
end_locks made = ended
end_locks unmade = misused
end_locks ended = misused
end_locks misused = misused

-- `struct fmmod_instance`, by what it holds. `fifo` is whether the named pipe is there, `closed` the
-- descriptors that were closed, `raised` whether SIGTERM was raised.
pub record Parts (S : Type 0) : Type 0 where
  pub jack : Jack
  pub buffers : Buffers
  pub locks : LockState
  pub rsmpl : Resampler
  pub flts : Filters
  pub rds_enc : Encoder S
  pub rtpsrv : Server
  pub ctl_map : Bool
  pub fifo : Bool
  pub out_sock_fd : ℕ
  pub closed : List ℕ
  pub active : Bool
  pub proc_thread : Bool
  pub raised : Bool

-- What the calls of others answer.
pub record PartAnswers : Type 0 where
  pub jack : JackAnswers
  pub jack_samplerate : ℕ
  pub num_in_samples : ℕ
  pub buffers : BufferAnswers
  pub rsmpl : ResamplerAnswers
  pub flts : FilterAnswers
  pub rds_enc : Answers
  pub mkfifo : Bool
  pub rtpsrv : ServerAnswers
  pub shm : Bool
  -- of `jack_client_create_thread`, an error number where no thread is made
  pub thread_code : ℤ
  pub activated : Bool

abbrev fmmod_output_samplerate : ℕ
fmmod_output_samplerate = 192000

-- A zeroed server, before GStreamer is initialised.
abbrev pub no_server : Server
no_server = record {
  state = inactive;
  gst = false;
  ctl_map = false;
  pipeline = false;
  msgbus = false;
  pool = false;
  loop = false;
  pads = 0;
  elements = 0;
  stats_timer = false;
}

module _ {S : Type 0} where
  -- After `memset`.
  abbrev pub no_parts : Parts S
  no_parts = record {
    jack = no_jack;
    buffers = no_buffers;
    locks = unmade;
    rsmpl = zeroed_resampler;
    flts = no_filters;
    rds_enc = cleared;
    rtpsrv = no_server;
    ctl_map = false;
    fifo = false;
    out_sock_fd = 0;
    closed = [];
    active = false;
    proc_thread = false;
    raised = false;
  }

  -- Some pointer of JACK, of the buffers, the resamplers or the filters is such.
  abbrev pub some_pointer : (Pointer → Bool) → Parts S → Bool
  some_pointer is p =
      any is (jack_slots p.jack)
      || (any is (buffer_slots p.buffers)
          || (any is (resampler_slots p.rsmpl) || any is (filter_slots p.flts)))

  unfoldable pub fmmod_destroy : (shutdown : Bool) → Parts S → Parts S
  unfolding destroy rtp_server_destroy
  fmmod_destroy shutdown p =
      let (enc, enc_raised) = destroy p.rds_enc in
      let (srv, srv_raised) = rtp_server_destroy p.rtpsrv in
      record p {
        jack = if shutdown then p.jack else close_jack p.jack;
        active = false;
        locks = end_locks (use_locks p.locks);
        ctl_map = false;
        rds_enc = enc;
        rtpsrv = srv;
        rsmpl = resampler_destroy p.rsmpl;
        flts = destroy_filters p.flts;
        buffers = free_buffers p.buffers;
        closed = p.out_sock_fd ∷ p.closed;
        fifo = false;
        raised = p.raised || enc_raised || srv_raised;
      }

  -- `fmmod_initialize` up to the control channel, by whether each step failed, and what it gave.
  unfoldable pub prepare_by :
      (jack_failed no_rates buffers_failed rsmpl_failed flts_failed enc_failed fifo_failed
        srv_failed shm_failed : Bool)
      → Jack × ℤ
      → Buffers × ℤ
      → Resampler
      → Filters × ℤ
      → Encoder S × Bool
      → Server × Bool
      → Parts S × ℤ
  prepare_by jack_failed no_rates buffers_failed rsmpl_failed flts_failed enc_failed fifo_failed
        srv_failed shm_failed (jack, jack_code) (buffers, buffers_code) rsmpl (flts, flts_code)
        (enc, enc_raised) (srv, srv_raised) =
      let with_jack = record no_parts { jack = jack } in
      let with_buffers = record with_jack { buffers = buffers } in
      let with_locks = record with_buffers { locks = made } in
      let with_rsmpl = record with_locks { rsmpl = rsmpl } in
      let with_flts = record with_rsmpl { flts = flts } in
      let with_enc = record with_flts { rds_enc = enc; raised = enc_raised } in
      let with_sock = record with_enc { fifo = true } in
      let with_srv = record with_sock { rtpsrv = srv; raised = enc_raised || srv_raised } in
      if jack_failed
      then (with_jack, jack_code)
      else if no_rates
      then (with_jack, minus 3)
      else if buffers_failed
      then (with_buffers, buffers_code)
      else if osc_refused osc_sample_rate
      then (with_locks, minus 5)
      else if rsmpl_failed
      then (with_rsmpl, minus 2)
      else if flts_failed
      then (with_flts, flts_code)
      else if enc_failed
      then (with_enc, minus 6)
      else if fifo_failed
      then (with_enc, minus 8)
      else if srv_failed
      then (with_srv, minus 9)
      else if shm_failed
      then (with_srv, minus 7)
      else (record with_srv { ctl_map = true }, pos 0)

  -- `z` is a silent sample, and `frames` the number of them in a group's waveform.
  unfoldable pub prepare : (z : S) (frames : ℕ) → PartAnswers → Parts S × ℤ
  unfolding connect init_buffers resampler_init init_filters init rtp_server_init prepare_by
  prepare z frames a =
      let jack = connect a.jack in
      let buffers = init_buffers a.buffers in
      let (rsmpl, rsmpl_code) =
        resampler_init a.rsmpl a.jack_samplerate osc_sample_rate fmmod_output_samplerate in
      let flts = init_filters a.flts in
      let (enc, enc_raised, enc_code) = init z frames a.rds_enc in
      let (srv, srv_raised, srv_code) =
        rtp_server_init a.rtpsrv no_server fmmod_output_samplerate 5000 in
      prepare_by (is_neg jack.1) ((a.jack_samplerate == 0) || (a.num_in_samples == 0))
        (is_neg buffers.1) (is_neg rsmpl_code) (is_neg flts.1) (is_neg enc_code) (not a.mkfifo)
        (is_neg srv_code) (not a.shm) jack buffers rsmpl flts (enc, enc_raised) (srv, srv_raised)

  -- From there to the end, by whether something failed before, no thread was made, or JACK refused.
  unfoldable pub finish_by :
      (failed no_thread refused : Bool) → Parts S × ℤ → (thread_code : ℤ) → Parts S × ℤ
  unfolding fmmod_destroy
  finish_by failed no_thread refused (p, code) thread_code =
      let begun = record p { active = true } in
      let running = record begun { proc_thread = is_zero thread_code } in
      if failed
      then (fmmod_destroy false p, code)
      else if no_thread
      then (begun, thread_code)
      else if refused
      then (fmmod_destroy false running, minus 3)
      else (running, pos 0)

  unfoldable pub fmmod_initialize : (z : S) (frames : ℕ) → PartAnswers → Parts S × ℤ
  unfolding prepare finish_by
  fmmod_initialize z frames a =
      let prepared = prepare z frames a in
      finish_by (is_neg prepared.1) (is_neg a.thread_code) (not a.activated) prepared a.thread_code
