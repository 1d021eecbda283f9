-- ===== src/Tool/Admission.antt =====
-- An address on its way from rtp_tool's command line, through the daemon's signal handler, to the RTP
-- server's sinks.
use jmpxrds.Base.{ℕ, List, [], ◌∷◌, ◌++◌, Option, none, some, Bool, true, false, ◌≡◌, ◌∙◌, ap}
use jmpxrds.Base.Int.{ℤ}
use jmpxrds.Shm.Mapping.{Posix, ShmMapping, World}
use jmpxrds.Rtp.Address.{Client}
use jmpxrds.Rtp.Stats.{Served}
use jmpxrds.Rtp.Receivers.{MultiUdpSink, RtpServer, Host, add_receiver, remove_receiver}
use jmpxrds.Rtp.Admit.{IsReady, IsAdded, add_receiver-IsAdded}
use jmpxrds.Tool.Daemon.{terminating, main_loop, add_ip, rtp_main}
use jmpxrds.Tool.DaemonLaws.{Is32Bits, up, stopped, then_on, call_for, main_loop-rtp_main}

-- The handler drops the code.
abbrev pub host_of : {H : Type 0} → Option (H × ℤ) → Option H
host_of none = none
host_of (some r) = some r.0

module _ {S W : Type 0} (sink : MultiUdpSink S) (posix : Posix W) (inet_aton : List ℕ → Option ℕ)
    (malloc_ok malloc_again : Bool) (s : Served) where
  abbrev pub add_host : ℕ → Host S W → Option (Host S W)
  add_host addr h = host_of (add_receiver sink posix inet_aton malloc_ok malloc_again s addr h)

  abbrev pub remove_host : ℕ → Host S W → Option (Host S W)
  remove_host addr h = host_of (remove_receiver sink posix inet_aton malloc_ok s addr h)

  -- rtp_tool with the option -a and an address, sent to a daemon that runs, on whose RTP server
  -- `add_receiver-IsAdded` holds, and then a terminating signal, delivered in this order: the daemon's
  -- loop ends, and each of the server's sinks was given the address, unless its text is a part of
  -- the text of the sink's clients, with the control as listed there.
  pub rtp_tool-IsAdded :
      (ip : List ℕ) (addr : ℕ) (cs : List Client) (h : Host S W) (srv : RtpServer S)
      (m : ShmMapping) (w : World W) (a x y : ℕ)
      → inet_aton ip ≡ some addr
      → ((t : List ℕ) → Is32Bits (inet_aton t))
      → IsReady sink posix inet_aton malloc_ok s addr cs h srv m w a x y
      → (h' : Host S W) × (srv' : RtpServer S) × (main_loop add_host remove_host true
            ((rtp_main inet_aton (add_ip ip ∷ [])).0 ++ terminating ∷ [])
            (up add_host remove_host inet_aton h false)
          ≡ stopped add_host remove_host inet_aton
              (up add_host remove_host inet_aton h false)
              (some h'))
        × IsAdded sink posix inet_aton addr cs h srv h' srv'
  rtp_tool-IsAdded ip addr cs h srv m w a x y e bits v =
      let (h', srv', added, good) =
        add_receiver-IsAdded sink posix inet_aton malloc_ok malloc_again s addr cs h srv m w a x y
          v in
      (
        h',
        srv',
        main_loop-rtp_main add_host remove_host inet_aton (add_ip ip ∷ []) h bits
            ∙ ap
                (λ o.
                  stopped add_host remove_host inet_aton (up add_host remove_host inet_aton h false)
                    (then_on (call_for add_host remove_host inet_aton add_host o h)
                      (λ r'. some r')))
                e
            ∙ ap
                (λ o.
                  stopped add_host remove_host inet_aton (up add_host remove_host inet_aton h false)
                    (then_on (host_of o) (λ r'. some r')))
                added,
        good,
      )
