-- ===== src/Rtp/Receivers.antt =====
-- rtp_server.h and rtp_server.c: the server's state, `rtp_server_add_receiver` and
-- `rtp_server_remove_receiver`. GStreamer's `multiudpsink` is an interface, with its documented
-- behaviour as a law.
use jmpxrds.Base.{
  ℕ, ◌+◌, List, [], ◌∷◌, Option, none, some, Bool, true, false, not, ◌&&◌, ◌||◌, ◌==◌,
  if◌then◌else◌, ◌≡◌,
}
use jmpxrds.Base.Int.{ℤ, pos, minus}
use jmpxrds.Shm.Mapping.{Posix, ShmMapping, World, shm_attach, shm_destroy, rtp_srv_shm_name}
use jmpxrds.Rtp.Stats.{Served, Last, Control, update_stats}
use jmpxrds.Rtp.Address.{inet_ntoa}

pub data RtpServerState : Type 0 where
  inactive : RtpServerState
  active : RtpServerState
  queue_full : RtpServerState
  terminated : RtpServerState
  failed : RtpServerState

abbrev pub is_serving : RtpServerState → Bool
is_serving active = true
is_serving inactive = false
is_serving queue_full = false
is_serving terminated = false
is_serving failed = false

-- `strstr(s, t) != NULL`.
abbrev pub is_prefix : List ℕ → List ℕ → Bool
is_prefix [] s = true
is_prefix (c ∷ t) [] = false
is_prefix (c ∷ t) (d ∷ s) = (c == d) && is_prefix t s

abbrev pub contains : List ℕ → List ℕ → Bool
contains [] t = is_prefix t []
contains (c ∷ s) t = is_prefix t (c ∷ s) || contains s t

-- The property "clients" of a sink, and its signals "add" and "remove", of a host and a port.
pub record MultiUdpSink (S : Type 0) : Type 0 where
  pub clients : S → List ℕ
  pub add : S → List ℕ → ℕ → S
  pub remove : S → List ℕ → ℕ → S
  pub add_contains :
      (s : S) (host : List ℕ) (port : ℕ) → contains (clients (add s host port)) host ≡ true

-- `struct rtp_server` as these two functions use it, with the control that its shared memory holds
-- and the static variables of the statistics.
pub record RtpServer (S : Type 0) : Type 0 where
  pub state : RtpServerState
  pub rtpsink : S
  pub rtcpsink : S
  pub baseport : ℕ
  pub ctl : Control
  pub last : Last

-- The caller's process, and the server that the shared memory points to, if any.
pub record Host (S W : Type 0) : Type 0 where
  pub world : World W
  pub server : Option (RtpServer S)

-- `sizeof(struct rtp_server_control)`.
abbrev pub control_size : ℕ
control_size = 296

module _ {S W : Type 0} (sink : MultiUdpSink S) (posix : Posix W)
    (inet_aton : List ℕ → Option ℕ) where
  -- `rtp_server_update_stats`; `s` is what the clock and the sinks' counters say.
  unfoldable pub refresh : Served → RtpServer S → Option (RtpServer S)
  refresh s srv =
      elim (update_stats inet_aton (record s { clients = sink.clients srv.rtpsink }) srv.last
        srv.ctl) [ none ↦ none | some r ↦ some (record srv { last = r.0; ctl = r.1 }) ]

  -- The end of both functions: the mapping given back, and the statistics if `ok`.
  unfoldable pub conclude :
      Bool → Served → ShmMapping → RtpServer S → World W → Option (Host S W × ℤ)
  unfolding refresh
  conclude ok s m srv w =
      let left = (shm_destroy posix (some m) false w).1 in
      if ok
      then elim (refresh s srv) [
        | none ↦ none
        | some srv' ↦ some (record { world = left; server = some srv' }, pos 0)
      ]
      else some (record { world = left; server = some srv }, minus 1)

  -- `rtp_server_remove_receiver` once the server is known to be active.
  unfoldable pub remove_from :
      List ℕ → Served → ShmMapping → RtpServer S → World W → Option (Host S W × ℤ)
  unfolding conclude
  remove_from ip s m srv w =
      let srv' = record srv {
        rtpsink = sink.remove srv.rtpsink ip srv.baseport;
        rtcpsink = sink.remove srv.rtcpsink ip (srv.baseport + 1);
      } in
      conclude
        (not (contains (sink.clients srv'.rtpsink) ip)
          && not (contains (sink.clients srv'.rtcpsink) ip))
        s m srv' w

  -- Where a mapping is attached: an active server is needed.
  unfoldable pub with_server :
      Option (RtpServer S)
      → ShmMapping
      → World W
      → (ShmMapping → RtpServer S → World W → Option (Host S W × ℤ))
      → Option (Host S W × ℤ)
  with_server none m w go = some (record { world = w; server = none }, minus 2)
  with_server (some srv) m w go =
      if not (is_serving srv.state)
      then some (record { world = w; server = some srv }, minus 3)
      else go m srv w

  unfoldable pub with_mapping :
      Option ShmMapping × World W
      → Option (RtpServer S)
      → (ShmMapping → RtpServer S → World W → Option (Host S W × ℤ))
      → Option (Host S W × ℤ)
  unfolding with_server
  with_mapping (none, w) server go = some (record { world = w; server = server }, minus 1)
  with_mapping (some m, w) server go = with_server server m w go

  -- What both functions do before: attach, and find an active server. `malloc_ok` is whether the
  -- attaching can allocate.
  unfoldable pub attached :
      Bool
      → Host S W
      → (ShmMapping → RtpServer S → World W → Option (Host S W × ℤ))
      → Option (Host S W × ℤ)
  unfolding with_mapping
  attached malloc_ok h go =
      with_mapping (shm_attach posix malloc_ok rtp_srv_shm_name control_size h.world) h.server go

  unfoldable pub remove_receiver : Bool → Served → ℕ → Host S W → Option (Host S W × ℤ)
  unfolding attached remove_from
  remove_receiver malloc_ok s addr h = attached malloc_ok h (remove_from (inet_ntoa addr) s)

  -- A sink after the host was added, if its text was not there.
  abbrev pub joined : S → List ℕ → ℕ → S
  joined k ip port = if contains (sink.clients k) ip then k else sink.add k ip port

  -- `rtp_server_add_receiver` once the server is known to be active. Where a sink has not taken the
  -- host, `rtp_server_remove_receiver` is called, which attaches again, before this mapping is given
  -- back.
  unfoldable pub add_to :
      Bool → Served → ℕ → ShmMapping → RtpServer S → World W → Option (Host S W × ℤ)
  unfolding conclude remove_receiver
  add_to malloc_again s addr m srv w =
      let ip = inet_ntoa addr in
      let srv' = record srv {
        rtpsink = joined srv.rtpsink ip srv.baseport;
        rtcpsink = joined srv.rtcpsink ip (srv.baseport + 1);
      } in
      if contains (sink.clients srv'.rtpsink) ip && contains (sink.clients srv'.rtcpsink) ip
      then conclude true s m srv' w
      else elim (remove_receiver malloc_again s addr (record { world = w; server = some srv' })) [
        | none ↦ none
        | some r ↦
            some
              (record (r.0) { world = (shm_destroy posix (some m) false (r.0).world).1 }, minus 1)
      ]

  unfoldable pub add_receiver :
      (malloc_ok malloc_again : Bool) → Served → ℕ → Host S W → Option (Host S W × ℤ)
  unfolding attached add_to
  add_receiver malloc_ok malloc_again s addr h = attached malloc_ok h (add_to malloc_again s addr)
