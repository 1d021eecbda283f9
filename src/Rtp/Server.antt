-- ===== src/Rtp/Server.antt =====
-- rtp_server.c: `rtp_server_init`, `rtp_server_destroy`, `rtp_server_main_loop`, the callbacks that
-- change the server's state, and `rtp_server_send_buffer`.
use jmpxrds.Base.{
  ℕ, ◌+◌, ◌*◌, List, take, Option, none, some, Bool, true, false, not, ◌||◌, ◌==◌, ltb,
  if◌then◌else◌,
}
use jmpxrds.Base.Int.{ℤ, pos, minus, is_neg}
use jmpxrds.Rtp.Receivers.{
  RtpServerState, inactive, active, queue_full, terminated, failed, is_serving,
}
use jmpxrds.Rtp.Pipeline.{AudioAnswers, NetworkAnswers, audio_path, elements_left, network_path}

-- What a server holds: each field between the first and the last three is whether the process has it.
-- The last three are what it does not give back: references to pads, elements outside of the
-- pipeline, and the timer of the statistics.
pub record Server : Type 0 where
  pub state : RtpServerState
  pub gst : Bool
  pub ctl_map : Bool
  pub pipeline : Bool
  pub msgbus : Bool
  pub pool : Bool
  pub loop : Bool
  pub pads : ℕ
  pub elements : ℕ
  pub stats_timer : Bool

-- From the label `not_running` on.
abbrev pub release_pipeline : Server → Server
release_pipeline s = record s {
  state = terminated;
  pipeline = false;
  msgbus = false;
  pool = false;
  ctl_map = false;
  gst = false;
}

-- From the label `no_eos` on.
abbrev pub stop_loop : Server → Server
stop_loop s = release_pipeline (record s { loop = false })

-- What is left, and whether SIGTERM is raised, by the state.
unfoldable pub destroy_in : RtpServerState → Server → Server × Bool
destroy_in terminated s = (s, false)
destroy_in failed s = (stop_loop s, true)
destroy_in inactive s = (release_pipeline s, true)
destroy_in active s = (stop_loop s, false)
destroy_in queue_full s = (stop_loop s, false)

-- The Boolean is `gst_is_initialized`.
unfoldable pub destroy_if : Bool → Server → Server × Bool
unfolding destroy_in
destroy_if false s = (s, false)
destroy_if true s = destroy_in s.state s

unfoldable pub rtp_server_destroy : Server → Server × Bool
unfolding destroy_if
rtp_server_destroy s = destroy_if s.gst s

-- The callbacks, and the end of the thread.
abbrev pub queue_ready : Server → Server × Bool
queue_ready s = (record s { state = active }, false)

abbrev pub queue_overrun : Server → Server × Bool
queue_overrun s = (record s { state = queue_full }, false)

unfoldable pub error_cb : Server → Server × Bool
unfolding rtp_server_destroy
error_cb s = rtp_server_destroy (record s { state = failed })

unfoldable pub main_loop : Server → Server × Bool
unfolding rtp_server_destroy
main_loop s = rtp_server_destroy s

-- What the calls of the initialisation answer.
pub record ServerAnswers : Type 0 where
  pub shm : Bool
  pub pipeline : Bool
  pub audio : AudioAnswers
  pub network : NetworkAnswers
  pub pool_ready : Bool
  pub playing : Bool
  pub thread_code : ℤ

-- The server, whether SIGTERM is raised, and the code, from the label `cleanup`.
unfoldable pub fail_server_init : Server → ℕ → Server × Bool × ℤ
unfolding rtp_server_destroy
fail_server_init s n = let (s', raised) = rtp_server_destroy s in (s', raised, minus n)

-- `before` is the server as it stands before.
unfoldable pub rtp_server_init :
    ServerAnswers → (before : Server) → (mpx_samplerate baseport : ℕ) → Server × Bool × ℤ
unfolding fail_server_init audio_path network_path elements_left
rtp_server_init a before mpx_samplerate baseport =
    let idle : Server = record before { state = inactive; ctl_map = false } in
    let shared : Server = record idle { ctl_map = true; gst = true } in
    let piped : Server = record shared { pipeline = true; msgbus = true } in
    let pooled : Server = record piped { pool = true } in
    let timed : Server = record pooled { stats_timer = true } in
    let running : Server = record timed { state = active; loop = true } in
    if not a.shm
    then fail_server_init idle 1
    else if not a.pipeline
    then fail_server_init shared 2
    else if is_neg (audio_path a.audio mpx_samplerate).0
    then fail_server_init (record piped { elements = piped.elements + elements_left a.audio }) 3
    else if is_neg (network_path a.network baseport).0
    then fail_server_init
        (record piped { pads = piped.pads + (network_path a.network baseport).1.pads }) 4
    else if not a.pool_ready
    then fail_server_init pooled 5
    else if not a.playing
    then fail_server_init timed 6
    else if is_neg a.thread_code
    then fail_server_init running 7
    else (running, false, pos 0)

-- `rtp_server_send_buffer`: the samples that are pushed, if any; `room` is the size in bytes of the
-- buffer that the pool gives, if it gives one, and no buffer is a NULL pointer.
unfoldable pub send_buffer :
    {A : Type 0} → RtpServerState → Option (List A) → ℕ → Option ℕ → Option (List A)
send_buffer state none n room = none
send_buffer state (some buff) n none = none
send_buffer state (some buff) n (some size) =
    if n == 0 || not (is_serving state)
    then none
    else if ltb size (n * 4)
    then none
    else some (take n buff)
