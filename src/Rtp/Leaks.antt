-- ===== src/Rtp/Leaks.antt =====
-- What the RTP server's initialisation leaves behind for good, whatever becomes of the server.
use jmpxrds.Base.{ℕ, ◌+◌, ◌∙◌, Bool, true, false, not, ◌&&◌, ◌||◌, if◌then◌else◌, ◌≡◌, refl, arith}
use jmpxrds.Base.Int.{ℤ, pos, is_neg}
use jmpxrds.Rtp.Receivers.{RtpServerState, inactive, active, queue_full, terminated, failed}
use jmpxrds.Rtp.Pipeline.{AudioAnswers, NetworkAnswers, audio_path, elements_left, network_path}
use jmpxrds.Rtp.Server.{
  Server, ServerAnswers, fail_server_init, destroy_in, destroy_if, rtp_server_destroy,
  rtp_server_init,
}

abbrev pub audio_ok : AudioAnswers → Bool
audio_ok a = a.appsrc && a.audio_converter && a.flac_encoder && a.link_appsrc && a.link_flac_encoder

abbrev pub network_ok : NetworkAnswers → Bool
network_ok a =
    a.rtp_payloader && a.link_flac_encoder && a.rtpbin && a.link_payloader && a.rtpsink
    && a.link_rtpsink && a.rtcpsrc && a.link_rtcpsrc && a.rtcpsink && a.link_rtcpsink

pub audio_path-code : (a : AudioAnswers) (n : ℕ) → is_neg (audio_path a n).0 ≡ not (audio_ok a)
unfolding audio_path
audio_path-code a n = ground arith

pub network_path-code :
    (a : NetworkAnswers) (n : ℕ) → is_neg (network_path a n).0 ≡ not (network_ok a)
unfolding network_path
network_path-code a n = ground arith

-- What stays whatever becomes of the server: two references to pads where a link of two pads fails.
abbrev pub pads_left : NetworkAnswers → ℕ
pads_left a =
    if a.rtp_payloader
      && a.link_flac_encoder
      && a.rtpbin
      && (not a.link_payloader
          || (a.rtpsink
              && (not a.link_rtpsink
                  || (a.rtcpsrc && (not a.link_rtcpsrc || (a.rtcpsink && not a.link_rtcpsink))))))
    then 2
    else 0

-- The elements made by an audio path that fails before they are put into the pipeline.
abbrev pub outside : AudioAnswers → ℕ
outside a =
    if a.appsrc && not (a.audio_converter && a.flac_encoder)
    then (if a.audio_converter then 2 else 1)
    else 0

-- What stays, by the steps that succeed: `s` is the server then.
pub record Leaks (shm pipeline audio network pool_ready : Bool) (out pads : ℕ) (before s : Server)
    : Type 0 where
  pub leaked_pads : s.pads ≡ before.pads + (if shm && pipeline && audio then pads else 0)
  pub leaked_elements : s.elements ≡ before.elements + (if shm && pipeline then out else 0)
  pub timer :
      s.stats_timer ≡ (before.stats_timer || (shm && pipeline && audio && network && pool_ready))

abbrev pub IsLeaking : ServerAnswers → (before s : Server) → Type 0
IsLeaking a before s =
    Leaks a.shm a.pipeline (audio_ok a.audio) (network_ok a.network) a.pool_ready (outside a.audio)
      (pads_left a.network) before s

network_path-pads : (a : NetworkAnswers) (n : ℕ) → (network_path a n).1.pads ≡ pads_left a
unfolding network_path
network_path-pads a n = ground arith

elements_left-outside : (a : AudioAnswers) → elements_left a ≡ outside a
unfolding elements_left
elements_left-outside a = ground arith

audio_ok-outside : (a : AudioAnswers) → audio_ok a ≡ true → outside a ≡ 0
audio_ok-outside a e = ground arith

-- The end of a server gives back none of the three.
not-not : (b : Bool) → not (not b) ≡ b
not-not true = refl
not-not false = refl

pub record SameLeaks (s s' : Server) : Type 0 where
  same_pads : s'.pads ≡ s.pads
  same_elements : s'.elements ≡ s.elements
  same_timer : s'.stats_timer ≡ s.stats_timer

destroy_in-SameLeaks : (st : RtpServerState) (s : Server) → SameLeaks s (destroy_in st s).0
unfolding destroy_in
destroy_in-SameLeaks terminated s = record {
  same_pads = refl;
  same_elements = refl;
  same_timer = refl;
}
destroy_in-SameLeaks failed s = record { same_pads = refl; same_elements = refl; same_timer = refl }
destroy_in-SameLeaks inactive s = record {
  same_pads = refl;
  same_elements = refl;
  same_timer = refl;
}
destroy_in-SameLeaks active s = record { same_pads = refl; same_elements = refl; same_timer = refl }
destroy_in-SameLeaks queue_full s = record {
  same_pads = refl;
  same_elements = refl;
  same_timer = refl;
}

destroy_if-SameLeaks : (b : Bool) (s : Server) → SameLeaks s (destroy_if b s).0
unfolding destroy_if
destroy_if-SameLeaks false s = record { same_pads = refl; same_elements = refl; same_timer = refl }
destroy_if-SameLeaks true s = destroy_in-SameLeaks s.state s

pub destroy-SameLeaks : (s : Server) → SameLeaks s (rtp_server_destroy s).0
unfolding rtp_server_destroy
destroy-SameLeaks s = destroy_if-SameLeaks s.gst s

network_ok-pads_left : (a : NetworkAnswers) → network_ok a ≡ true → pads_left a ≡ 0
network_ok-pads_left a e = ground arith

pub SameLeaks-Leaks :
    {sh pi ao nt pr : Bool} {out pads : ℕ} {before s s' : Server}
    → SameLeaks s s'
    → Leaks sh pi ao nt pr out pads before s
    → Leaks sh pi ao nt pr out pads before s'
SameLeaks-Leaks same v = record {
  leaked_pads = same.same_pads ∙ v.leaked_pads;
  leaked_elements = same.same_elements ∙ v.leaked_elements;
  timer = same.same_timer ∙ v.timer;
}

module _ (before : Server) (out pads : ℕ) (code : ℤ) where
  abbrev idle : Server
  idle = record before { state = inactive; ctl_map = false }

  abbrev piped : Server
  piped = record idle { ctl_map = true; gst = true; pipeline = true; msgbus = true }

  abbrev timed : Server
  timed = record piped { pool = true; stats_timer = true }

  -- The initialisation, by the steps that succeed.
  abbrev steps : (sh pi ao nt pr pl th : Bool) → Server × Bool × ℤ
  steps sh pi ao nt pr pl th =
      if not sh
      then fail_server_init idle 1
      else if not pi
      then fail_server_init (record idle { ctl_map = true; gst = true }) 2
      else if not ao
      then fail_server_init (record piped { elements = piped.elements + out }) 3
      else if not nt
      then fail_server_init (record piped { pads = piped.pads + pads }) 4
      else if not pr
      then fail_server_init (record piped { pool = true }) 5
      else if not pl
      then fail_server_init timed 6
      else if not th
      then fail_server_init (record timed { state = active; loop = true }) 7
      else (record timed { state = active; loop = true }, false, pos 0)

  steps-Leaks :
      (sh pi ao nt pr pl th : Bool)
      → (ao ≡ true → out ≡ 0)
      → (nt ≡ true → pads ≡ 0)
      → Leaks sh pi ao nt pr out pads before (steps sh pi ao nt pr pl th).0
  unfolding fail_server_init
  steps-Leaks false pi ao nt pr pl th e f =
      SameLeaks-Leaks (destroy-SameLeaks idle)
        (record { leaked_pads = omega arith; leaked_elements = omega arith; timer = ground arith })
  steps-Leaks true false ao nt pr pl th e f =
      SameLeaks-Leaks (destroy-SameLeaks (record idle { ctl_map = true; gst = true }))
        (record { leaked_pads = omega arith; leaked_elements = omega arith; timer = ground arith })
  steps-Leaks true true false nt pr pl th e f =
      SameLeaks-Leaks (destroy-SameLeaks (record piped { elements = piped.elements + out }))
        (record { leaked_pads = omega arith; leaked_elements = refl; timer = ground arith })
  steps-Leaks true true true false pr pl th e f =
      SameLeaks-Leaks (destroy-SameLeaks (record piped { pads = piped.pads + pads })) (record {
        leaked_pads = refl;
        leaked_elements = omega (arith, e refl);
        timer = ground arith;
      })
  steps-Leaks true true true true false pl th e f =
      SameLeaks-Leaks (destroy-SameLeaks (record piped { pool = true })) (record {
        leaked_pads = omega (arith, f refl);
        leaked_elements = omega (arith, e refl);
        timer = ground arith;
      })
  steps-Leaks true true true true true false th e f =
      SameLeaks-Leaks (destroy-SameLeaks timed) (record {
        leaked_pads = omega (arith, f refl);
        leaked_elements = omega (arith, e refl);
        timer = ground arith;
      })
  steps-Leaks true true true true true true false e f =
      SameLeaks-Leaks (destroy-SameLeaks (record timed { state = active; loop = true })) (record {
        leaked_pads = omega (arith, f refl);
        leaked_elements = omega (arith, e refl);
        timer = ground arith;
      })
  steps-Leaks true true true true true true true e f = record {
    leaked_pads = omega (arith, f refl);
    leaked_elements = omega (arith, e refl);
    timer = ground arith;
  }

init-steps :
    (a : ServerAnswers) (before : Server) (sr bp : ℕ)
    → rtp_server_init a before sr bp
      ≡ steps before
          (outside a.audio)
          (pads_left a.network)
          a.thread_code
          a.shm
          a.pipeline
          (audio_ok a.audio)
          (network_ok a.network)
          a.pool_ready
          a.playing
          (not (is_neg a.thread_code))
unfolding rtp_server_init fail_server_init
init-steps a before sr bp =
    rw
      (
        audio_path-code a.audio sr,
        network_path-code a.network bp,
        network_path-pads a.network bp,
        elements_left-outside a.audio,
        not-not (is_neg a.thread_code),
      )
      refl

pub rtp_server_init-IsLeaking :
    (a : ServerAnswers) (before : Server) (sr bp : ℕ)
    → IsLeaking a before (rtp_server_init a before sr bp).0
rtp_server_init-IsLeaking a before sr bp = rw (init-steps a before sr bp) (
    steps-Leaks before (outside a.audio) (pads_left a.network) a.thread_code a.shm a.pipeline
      (audio_ok a.audio) (network_ok a.network) a.pool_ready a.playing (not (is_neg a.thread_code))
      (audio_ok-outside a.audio) (network_ok-pads_left a.network))
