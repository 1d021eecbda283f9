-- ===== src/Tool/Daemon.antt =====
-- main.c: `main` and its signal handler; and rtp_tool.c, which sends the signals. The calls of the RTP
-- server for a receiver are arguments here.
use jmpxrds.Base.{
  ℕ, ◌-◌, ◌^◌, List, [], ◌∷◌, Option, none, some, Bool, true, false, not, ◌&&◌, ◌||◌, ltb,
  if◌then◌else◌,
}
use jmpxrds.Base.Int.{ℤ, pos, negsuc, minus, is_neg, wrap}
use jmpxrds.Fmmod.Life.{Parts, PartAnswers, fmmod_initialize, fmmod_destroy}

-- The signals of the handler; `terminating` are SIGQUIT, SIGTERM, SIGHUP and SIGINT. The others carry
-- a value of type int.
pub data Signal : Type 0 where
  sigpipe sigabrt sigsegv terminating : Signal
  sigusr1 sigusr2 : ℤ → Signal

-- The static `active`, whether the shared memory's names were unlinked and the process killed, and
-- what the RTP server serves.
pub record Daemon (R : Type 0) : Type 0 where
  pub active : Bool
  pub unlinked : Bool
  pub killed : Bool
  pub served : R

-- An address as the int of a signal.
abbrev pub sival_int : ℕ → ℤ
sival_int addr = if ltb addr (2 ^ 31) then pos addr else negsuc (2 ^ 32 - 1 - addr)

abbrev pub kill_now : {R : Type 0} → Daemon R → Daemon R
kill_now d = record d { unlinked = true; killed = true }

-- A call's result as the daemon's.
abbrev pub serve : {R : Type 0} → Daemon R → Option R → Option (Daemon R)
serve d none = none
serve d (some r) = some (record d { served = r })

module _ {R : Type 0} (add_receiver remove_receiver : ℕ → R → Option R) where
  -- `none` is a call that does not return.
  unfoldable pub signal_handler : Signal → Daemon R → Option (Daemon R)
  signal_handler sigpipe d = some d
  signal_handler (sigusr1 v) d = serve d (add_receiver (wrap 32 v) d.served)
  signal_handler (sigusr2 v) d = serve d (remove_receiver (wrap 32 v) d.served)
  signal_handler sigabrt d = some (kill_now d)
  signal_handler sigsegv d = some (kill_now d)
  signal_handler terminating d =
      some (if not d.active then kill_now d else record d { active = false })

  -- The loop of `main`, by the signals that are delivered in it, which can be fewer than were sent: a
  -- signal that is sent while one of its kind is pending is lost; `instance_active` is whether JACK keeps the
  -- instance. What arrives after the loop has ended, or the process, is not handled here.
  unfoldable pub main_loop : (instance_active : Bool) → List Signal → Daemon R → Option (Daemon R)
  unfolding signal_handler
  main_loop instance_active [] d = some d
  main_loop instance_active (s ∷ ss) d =
      let rest : Option (Daemon R) = elim (signal_handler s d) [
        | none ↦ none
        | some d' ↦ main_loop instance_active ss d'
      ] in
      if d.active && instance_active && not d.killed then rest else some d

-- The exit of the process, with its code.
pub record Exit (S R : Type 0) : Type 0 where
  pub parts : Parts S
  pub daemon : Daemon R
  pub code : ℤ

module _ {S R : Type 0} (add_receiver remove_receiver : ℕ → R → Option R) (z : S) (frames : ℕ) where
  -- From the end of the loop on.
  unfoldable pub leave : Parts S → Daemon R → Exit S R
  unfolding fmmod_destroy
  leave p d = record {
    parts = if p.active && not d.killed then fmmod_destroy false p else p;
    daemon = d;
    code = pos 0;
  }

  abbrev pub left : Parts S → Option (Daemon R) → Option (Exit S R)
  left p none = none
  left p (some d) = some (leave p d)

  -- `main` after the initialisation, if the signals end its loop. `out_sock_fd` is the descriptor that
  -- the processing thread has of the named pipe by then, 0 if it has none.
  unfoldable pub main_after : Parts S × ℤ → (out_sock_fd : ℕ) → R → List Signal → Option (Exit S R)
  unfolding main_loop leave
  main_after (p, code) out_sock_fd served ss =
      let idle : Daemon R = record {
        active = false;
        unlinked = false;
        killed = false;
        served = served;
      } in
      if is_neg code
      then some (record { parts = p; daemon = idle; code = code })
      else left (record p { out_sock_fd = out_sock_fd })
          (main_loop add_receiver remove_receiver p.active ss (record idle { active = true }))

  unfoldable pub run_daemon : PartAnswers → (out_sock_fd : ℕ) → R → List Signal → Option (Exit S R)
  unfolding fmmod_initialize main_after
  run_daemon a out_sock_fd served ss =
      main_after (fmmod_initialize z frames a) out_sock_fd served ss

-- rtp_tool.c: its options, with `inet_aton`.
pub data RtpOption : Type 0 where
  show_status unknown : RtpOption
  add_ip remove_ip : List ℕ → RtpOption

abbrev pub sent_for : (ℤ → Signal) → Option ℕ → List Signal → List Signal
sent_for signal none rest = rest
sent_for signal (some addr) rest = signal (sival_int addr) ∷ rest

module _ (inet_aton : List ℕ → Option ℕ) where
  -- The signals that are sent, and whether an option was unknown.
  unfoldable pub send_signals : List RtpOption → List Signal × Bool
  send_signals [] = ([], false)
  send_signals (show_status ∷ os) = send_signals os
  send_signals (unknown ∷ os) = ([], true)
  send_signals (add_ip ip ∷ os) =
      let (rest, failed) = send_signals os in (sent_for sigusr1 (inet_aton ip) rest, failed)
  send_signals (remove_ip ip ∷ os) =
      let (rest, failed) = send_signals os in (sent_for sigusr2 (inet_aton ip) rest, failed)

  abbrev pub no_option : List RtpOption → Bool
  no_option [] = true
  no_option (o ∷ os) = false

  unfoldable pub rtp_main : List RtpOption → List Signal × ℤ
  unfolding send_signals
  rtp_main os =
      let (sent, failed) = send_signals os in
      (sent, if failed || no_option os then minus 1 else pos 0)
