-- ===== src/Rtp/Lifecycle.antt =====
-- What the RTP server's initialisation holds, and gives back when it fails or when the server ends.
use jmpxrds.Base.{
  ℕ, Bool, true, false, not, ◌&&◌, ◌||◌, if◌then◌else◌, ◌≡◌, ◌≢◌, ◌⊎◌, inl, inr, refl, ap, arith,
}
use jmpxrds.Base.Int.{ℤ, is_neg}
use jmpxrds.Rtp.Receivers.{RtpServerState, inactive, active, queue_full, terminated, failed}
use jmpxrds.Rtp.Server.{
  Server, ServerAnswers, destroy_in, destroy_if, rtp_server_destroy, rtp_server_init,
}
use jmpxrds.Rtp.Leaks.{
  audio_ok, network_ok, audio_path-code, network_path-code, IsLeaking, destroy-SameLeaks,
  SameLeaks-Leaks, rtp_server_init-IsLeaking,
}

-- All that comes before the thread.
abbrev pub all_but_thread : ServerAnswers → Bool
all_but_thread a =
    a.shm && a.pipeline && audio_ok a.audio && network_ok a.network && a.pool_ready && a.playing

-- The shared memory, the pipeline with its elements, the bus, the pool and the main loop are not held.
pub record IsReleased (s : Server) : Type 0 where
  pub unmapped : s.ctl_map ≡ false
  pub no_pipeline : (s.pipeline ≡ false) × (s.msgbus ≡ false)
  pub no_pool : s.pool ≡ false
  pub no_loop : s.loop ≡ false

pub record HoldsAll (s : Server) : Type 0 where
  pub up : s.state ≡ active
  pub mapped : (s.ctl_map ≡ true) × (s.gst ≡ true)
  pub has_pipeline : (s.pipeline ≡ true) × (s.msgbus ≡ true)
  pub has_pool : s.pool ≡ true
  pub has_loop : s.loop ≡ true

pub record Started (a : ServerAnswers) (before : Server) (r : Server × Bool × ℤ) : Type 0 where
  pub code : is_neg (r.2) ≡ not (all_but_thread a && not (is_neg a.thread_code))
  pub held :
      if all_but_thread a && not (is_neg a.thread_code) then HoldsAll (r.0) else IsReleased (r.0)
  pub raised : r.1 ≡ (not (all_but_thread a) && (a.shm || before.gst))
  pub ended : IsReleased (rtp_server_destroy (r.0)).0
  pub leaks : IsLeaking a before (r.0)
  pub leaks_after : IsLeaking a before (rtp_server_destroy (r.0)).0
  pub once : rtp_server_destroy (rtp_server_destroy (r.0)).0 ≡ ((rtp_server_destroy (r.0)).0, false)

rtp_server_init-code :
    (a : ServerAnswers) (before : Server) (sr bp : ℕ)
    → is_neg (rtp_server_init a before sr bp).2
      ≡ not (all_but_thread a && not (is_neg a.thread_code))
unfolding rtp_server_init
rtp_server_init-code a before sr bp =
    rw (audio_path-code a.audio sr, network_path-code a.network bp) (ground arith)

rtp_server_init-raised :
    (a : ServerAnswers) (before : Server) (sr bp : ℕ)
    → (rtp_server_init a before sr bp).1 ≡ (not (all_but_thread a) && (a.shm || before.gst))
unfolding rtp_server_init
rtp_server_init-raised a before sr bp =
    rw (audio_path-code a.audio sr, network_path-code a.network bp) (ground arith)

rtp_server_init-fails :
    (a : ServerAnswers) (before : Server) (sr bp : ℕ)
    → IsReleased before
    → (all_but_thread a && not (is_neg a.thread_code)) ≡ false
    → IsReleased (rtp_server_init a before sr bp).0
unfolding rtp_server_init
rtp_server_init-fails a before sr bp v e =
    rw (audio_path-code a.audio sr, network_path-code a.network bp)
      (record {
        unmapped = ground arith;
        no_pipeline = (ground arith, ground arith);
        no_pool = ground arith;
        no_loop = ground arith;
      })

rtp_server_init-holds :
    (a : ServerAnswers) (before : Server) (sr bp : ℕ)
    → (all_but_thread a && not (is_neg a.thread_code)) ≡ true
    → HoldsAll (rtp_server_init a before sr bp).0
unfolding rtp_server_init
rtp_server_init-holds a before sr bp e =
    rw (audio_path-code a.audio sr, network_path-code a.network bp)
      (record {
        up = ground arith;
        mapped = (ground arith, ground arith);
        has_pipeline = (ground arith, ground arith);
        has_pool = ground arith;
        has_loop = ground arith;
      })

held_by :
    (b : Bool) (s : Server)
    → (b ≡ true → HoldsAll s)
    → (b ≡ false → IsReleased s)
    → if b then HoldsAll s else IsReleased s
held_by true s f g = f refl
held_by false s f g = g refl

destroy_in-gone :
    (st : RtpServerState) (s : Server)
    → s.loop ≡ false ⊎ st ≢ inactive
    → IsReleased s ⊎ st ≢ terminated
    → IsReleased (destroy_in st s).0
unfolding destroy_in
destroy_in-gone terminated s h (inl v) = v
destroy_in-gone terminated s h (inr g) = absurd (g refl)
destroy_in-gone failed s h g = record {
  unmapped = refl;
  no_pipeline = (refl, refl);
  no_pool = refl;
  no_loop = refl;
}
destroy_in-gone inactive s (inl l) g = record {
  unmapped = refl;
  no_pipeline = (refl, refl);
  no_pool = refl;
  no_loop = l;
}
destroy_in-gone inactive s (inr l) g = absurd (l refl)
destroy_in-gone active s h g = record {
  unmapped = refl;
  no_pipeline = (refl, refl);
  no_pool = refl;
  no_loop = refl;
}
destroy_in-gone queue_full s h g = record {
  unmapped = refl;
  no_pipeline = (refl, refl);
  no_pool = refl;
  no_loop = refl;
}

destroy_if-gone : (b : Bool) (s : Server) → IsReleased s → IsReleased (destroy_if b s).0
unfolding destroy_if
destroy_if-gone false s v = v
destroy_if-gone true s v = destroy_in-gone s.state s (inl v.no_loop) (inl v)

destroy-running : (s : Server) → HoldsAll s → IsReleased (rtp_server_destroy s).0
unfolding rtp_server_destroy destroy_in
destroy-running s v =
    rw (v.mapped.1, v.up)
      (record { unmapped = refl; no_pipeline = (refl, refl); no_pool = refl; no_loop = refl })

destroy_if-ended : (b : Bool) (s : Server) → s.state ≡ terminated → destroy_if b s ≡ (s, false)
unfolding destroy_if destroy_in
destroy_if-ended false s e = refl
destroy_if-ended true s e = ap (λ st. destroy_in st s) e

destroy_in-twice :
    (st : RtpServerState) (s : Server)
    → s.state ≡ st
    → rtp_server_destroy (destroy_in st s).0 ≡ ((destroy_in st s).0, false)
unfolding rtp_server_destroy destroy_in
destroy_in-twice terminated s e = destroy_if-ended s.gst s e
destroy_in-twice failed s e = refl
destroy_in-twice inactive s e = refl
destroy_in-twice active s e = refl
destroy_in-twice queue_full s e = refl

destroy_if-twice :
    (b : Bool) (s : Server)
    → s.gst ≡ b
    → rtp_server_destroy (destroy_if b s).0 ≡ ((destroy_if b s).0, false)
unfolding rtp_server_destroy destroy_if
destroy_if-twice false s e = ap (λ b. destroy_if b s) e
destroy_if-twice true s e = destroy_in-twice s.state s refl

ends :
    (b : Bool) (s : Server)
    → if b then HoldsAll s else IsReleased s
    → IsReleased (rtp_server_destroy s).0
unfolding rtp_server_destroy
ends true s v = destroy-running s v
ends false s v = destroy_if-gone s.gst s v

-- From a server whose shared memory, pipeline, bus, pool and main loop are not held: the initialisation
-- succeeds exactly when the shared memory, each element, each link, the pool and the pipeline's start
-- do, and the call for the thread gives no negative code; then the server is active and holds all of these,
-- also where that code is an error number above 0 and no thread runs. When it fails, they are not
-- held, and SIGTERM is raised, but not where only the code for the thread was negative, nor where
-- the shared memory was refused before GStreamer was initialised. After the server's destruction they
-- are not held either way, and a second destruction changes nothing and raises no signal. Three
-- things stay for good: two references to pads where a link of two pads failed, one or two elements
-- where the converter or the encoder could not be made, and the timer of the statistics from
-- the time that the pool is ready.
pub rtp_server_init-Started :
    (a : ServerAnswers) (before : Server) (sr bp : ℕ)
    → IsReleased before
    → Started a before (rtp_server_init a before sr bp)
unfolding rtp_server_destroy destroy_if
rtp_server_init-Started a before sr bp v =
    let held =
      held_by (all_but_thread a && not (is_neg a.thread_code)) (rtp_server_init a before sr bp).0
        (rtp_server_init-holds a before sr bp) (rtp_server_init-fails a before sr bp v) in
    record {
      code = rtp_server_init-code a before sr bp;
      held = held;
      raised = rtp_server_init-raised a before sr bp;
      ended =
          ends (all_but_thread a && not (is_neg a.thread_code)) (rtp_server_init a before sr bp).0
            held;
      leaks = rtp_server_init-IsLeaking a before sr bp;
      leaks_after =
          SameLeaks-Leaks (destroy-SameLeaks _) (rtp_server_init-IsLeaking a before sr bp);
      once =
          destroy_if-twice (rtp_server_init a before sr bp).0.gst (rtp_server_init a before sr bp).0
            refl;
    }
