-- ===== src/Tool/DaemonLaws.antt =====
-- What rtp_tool has the daemon do, and what the daemon leaves when it ends.
use jmpxrds.Base.{
  ℕ, ◌^◌, ◌<◌, List, [], ◌∷◌, ◌++◌, Option, none, some, Bool, true, false, ◌≡◌, refl, arith, ◌∙◌,
  ap,
}
use jmpxrds.Base.Int.{ℤ, pos, wrap}
use jmpxrds.Fmmod.Lifetime.{Ending}
use jmpxrds.Tool.Daemon.{
  Signal, terminating, sigusr1, sigusr2, Daemon, sival_int, serve, signal_handler, main_loop, Exit,
  RtpOption, show_status, unknown, add_ip, remove_ip, sent_for, send_signals, rtp_main,
}

-- An address survives the signal's int.
wrap-sival_int : (addr : ℕ) → addr < 2 ^ 32 → wrap 32 (sival_int addr) ≡ addr
wrap-sival_int addr h = ground arith

-- An address, if it is one, has 32 bits.
abbrev pub Is32Bits : Option ℕ → Type 0
Is32Bits none = Unit
Is32Bits (some addr) = addr < 2 ^ 32

-- One call after the other.
abbrev pub then_on : {A B : Type 0} → Option A → (A → Option B) → Option B
then_on none f = none
then_on (some a) f = f a

module _ {R : Type 0} (add_receiver remove_receiver : ℕ → R → Option R)
    (inet_aton : List ℕ → Option ℕ) where
  abbrev pub call_for : (ℕ → R → Option R) → Option ℕ → R → Option R
  call_for call none r = some r
  call_for call (some addr) r = call addr r

  -- What the options ask of the server: the calls in their order, for the addresses that are read.
  abbrev pub serves : List RtpOption → R → Option R
  serves [] r = some r
  serves (show_status ∷ os) r = serves os r
  serves (unknown ∷ os) r = some r
  serves (add_ip ip ∷ os) r = then_on (call_for add_receiver (inet_aton ip) r) (λ r'. serves os r')
  serves (remove_ip ip ∷ os) r =
      then_on (call_for remove_receiver (inet_aton ip) r) (λ r'. serves os r')

  abbrev pub stopped : Daemon R → Option R → Option (Daemon R)
  stopped d none = none
  stopped d (some r) = some (record d { active = false; served = r })

  abbrev loop : List Signal → Daemon R → Option (Daemon R)
  loop ss d = main_loop add_receiver remove_receiver true ss d

  -- A daemon that runs.
  abbrev pub up : R → Bool → Daemon R
  up r b = record { active = true; unlinked = b; killed = false; served = r }

  -- The rest of the loop after a handler.
  abbrev go_on : List Signal → Option (Daemon R) → Option (Daemon R)
  go_on ss none = none
  go_on ss (some d) = loop ss d

  by_call :
      (ss : List Signal) (spec : R → Option R) (r : R) (b : Bool) (o : Option R)
      → ((r' : R) → loop ss (up r' b) ≡ stopped (up r b) (spec r'))
      → go_on ss (serve (up r b) o) ≡ stopped (up r b) (then_on o spec)
  by_call ss spec r b none f = refl
  by_call ss spec r b (some r') f = f r'

  loop-usr :
      (signal : ℤ → Signal) (call : ℕ → R → Option R) (o : Option ℕ) (rest ends : List Signal)
      (spec : R → Option R) (r : R) (b : Bool)
      → ((v : ℤ) (d : Daemon R)
          → signal_handler add_receiver remove_receiver (signal v) d
            ≡ serve d (call (wrap 32 v) d.served))
      → Is32Bits o
      → ((r' : R) → loop (rest ++ ends) (up r' b) ≡ stopped (up r b) (spec r'))
      → loop (sent_for signal o rest ++ ends) (up r b)
        ≡ stopped (up r b) (then_on (call_for call o r) spec)
  unfolding main_loop
  loop-usr signal call none rest ends spec r b e h f = f r
  loop-usr signal call (some addr) rest ends spec r b e h f =
      ap (λ (o : Option (Daemon R)). go_on (rest ++ ends) o)
        (e (sival_int addr) (up r b) ∙ ap (λ n. serve (up r b) (call n r)) (wrap-sival_int addr h))
      ∙ by_call (rest ++ ends) spec r b (call addr r) f

  sends-serves :
      (os : List RtpOption) (r : R) (b : Bool)
      → ((ip : List ℕ) → Is32Bits (inet_aton ip))
      → loop ((send_signals inet_aton os).0 ++ terminating ∷ []) (up r b)
        ≡ stopped (up r b) (serves os r)
  unfolding send_signals main_loop signal_handler
  sends-serves [] r b h = refl
  sends-serves (show_status ∷ os) r b h = sends-serves os r b h
  sends-serves (unknown ∷ os) r b h = refl
  sends-serves (add_ip ip ∷ os) r b h =
      loop-usr sigusr1 add_receiver (inet_aton ip) (send_signals inet_aton os).0 (terminating ∷ [])
        (λ r'. serves os r') r b (λ v d. refl) (h ip) (λ r'. sends-serves os r' b h)
  sends-serves (remove_ip ip ∷ os) r b h =
      loop-usr sigusr2 remove_receiver (inet_aton ip) (send_signals inet_aton os).0
        (terminating ∷ []) (λ r'. serves os r') r b (λ v d. refl) (h ip)
        (λ r'. sends-serves os r' b h)

  -- rtp_tool's signals, and then one that terminates, have a daemon that runs call the RTP server once
  -- for each address that rtp_tool could read, in the order of its options, up to an unknown one: no
  -- address is changed on the way through the int of a signal. Then the loop ends, if each call
  -- returned.
  pub main_loop-rtp_main :
      (os : List RtpOption) (r : R)
      → ((ip : List ℕ) → Is32Bits (inet_aton ip))
      → main_loop add_receiver remove_receiver true
          ((rtp_main inet_aton os).0 ++ terminating ∷ [])
          (up r false)
        ≡ stopped (up r false) (serves os r)
  unfolding rtp_main
  main_loop-rtp_main os r h = sends-serves os r false h

-- The daemon's end, where `fd` is the descriptor that is closed: no pointer is live, none was given back
-- twice.
pub record Ended {S R : Type 0} (fd : ℕ) (r : R) (x : Exit S R) : Type 0 where
  pub code : x.code ≡ pos 0
  pub served : x.daemon.served ≡ r
  pub graceful : x.daemon.killed ≡ false
  pub parts : Ending false (fd ∷ []) x.parts
