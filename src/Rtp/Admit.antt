-- ===== src/Rtp/Admit.antt =====
-- An address that is added is a destination of both sinks, and listed.
use jmpxrds.Base.{
  ℕ, ◌+◌, List, Option, some, length, Bool, Bool-cases, true, false, All, if◌then◌else◌, ◌≡◌, ◌∙◌,
  inl, inr, refl, ap,
}
use jmpxrds.Base.Int.{ℤ, pos}
use jmpxrds.Shm.Mapping.{Posix, ShmMapping, World, at, shm_attach, shm_destroy, rtp_srv_shm_name}
use jmpxrds.Shm.Life.{shm_attach-destroy}
use jmpxrds.Rtp.Stats.{Served, rate, diff}
use jmpxrds.Rtp.Address.{Client, clients_text, inet_ntoa}
use jmpxrds.Rtp.Listed.{IsListed, IsClient, update_stats-IsListed}
use jmpxrds.Rtp.Receivers.{
  active, contains, MultiUdpSink, RtpServer, Host, control_size, conclude, with_server,
  with_mapping, attached, joined, add_to, add_receiver,
}

module _ {S W : Type 0} (sink : MultiUdpSink S) (posix : Posix W)
    (inet_aton : List ℕ → Option ℕ) where
  joined-contains :
      (k : S) (ip : List ℕ) (port : ℕ)
      → contains (sink.clients (joined sink posix inet_aton k ip port)) ip ≡ true
  joined-contains k ip port = elim (Bool-cases (contains (sink.clients k) ip)) [
    | inl e ↦ rw e e
    | inr e ↦ rw e (sink.add_contains k ip port)
  ]

  -- What an address is added with.
  pub record IsReady (malloc_ok : Bool) (s : Served) (addr : ℕ) (cs : List Client) (h : Host S W)
      (srv : RtpServer S) (m : ShmMapping) (w : World W) (a x y : ℕ) : Type 0 where
    pub attaches : shm_attach posix malloc_ok rtp_srv_shm_name control_size h.world ≡ (some m, w)
    pub mapped : m.mem ≡ at a
    pub served : h.server ≡ some srv
    pub is_up : srv.state ≡ active
    pub clients :
        sink.clients (joined sink posix inet_aton srv.rtpsink (inet_ntoa addr) srv.baseport)
        ≡ clients_text cs
    pub readable : All (λ c. IsClient inet_aton c) cs
    pub room : length srv.ctl.receivers ≡ 64
    pub rtp_rate :
        rate (diff s.rtp_bytes srv.last.rtp_bytes_served) (diff s.timestamp srv.last.timestamp)
        ≡ some x
    pub rtcp_rate :
        rate (diff s.rtcp_bytes srv.last.rtcp_bytes_served) (diff s.timestamp srv.last.timestamp)
        ≡ some y

  -- The process, after the address was added.
  pub record IsAdded (addr : ℕ) (cs : List Client) (h : Host S W) (srv : RtpServer S)
      (h' : Host S W) (srv' : RtpServer S) : Type 0 where
    pub stays : h'.server ≡ some srv'
    pub in_rtpsink : contains (sink.clients srv'.rtpsink) (inet_ntoa addr) ≡ true
    pub in_rtcpsink : contains (sink.clients srv'.rtcpsink) (inet_ntoa addr) ≡ true
    pub rtpsink_is : srv'.rtpsink ≡ (
        if contains (sink.clients srv.rtpsink) (inet_ntoa addr)
        then srv.rtpsink
        else sink.add srv.rtpsink (inet_ntoa addr) srv.baseport)
    pub rtcpsink_is : srv'.rtcpsink ≡ (
        if contains (sink.clients srv.rtcpsink) (inet_ntoa addr)
        then srv.rtcpsink
        else sink.add srv.rtcpsink (inet_ntoa addr) (srv.baseport + 1))
    pub listed : IsListed cs 0 srv.ctl.receivers (srv'.ctl.receivers, srv'.ctl.num_receivers)
    pub given_back : h'.world.blocks ≡ h.world.blocks

  attached-up :
      (malloc_ok : Bool) (h : Host S W) (srv : RtpServer S) (m : ShmMapping) (w : World W)
      (go : ShmMapping → RtpServer S → World W → Option (Host S W × ℤ))
      → shm_attach posix malloc_ok rtp_srv_shm_name control_size h.world ≡ (some m, w)
      → h.server ≡ some srv
      → srv.state ≡ active
      → attached sink posix inet_aton malloc_ok h go ≡ go m srv w
  unfolding attached
  attached-up malloc_ok h srv m w go e f g =
      ap (λ r. with_mapping sink posix inet_aton r h.server go) e
      ∙ ap (λ t. with_server sink posix inet_aton t m w go) f
      ∙ rw g refl

  add_to-joins :
      (malloc_again : Bool) (s : Served) (addr : ℕ) (m : ShmMapping) (srv : RtpServer S)
      (w : World W)
      → add_to sink posix inet_aton malloc_again s addr m srv w
        ≡ conclude sink posix inet_aton true s m
            (record srv {
              rtpsink = joined sink posix inet_aton srv.rtpsink (inet_ntoa addr) srv.baseport;
              rtcpsink =
                  joined sink posix inet_aton srv.rtcpsink (inet_ntoa addr) (srv.baseport + 1);
            })
            w
  unfolding add_to
  add_to-joins malloc_again s addr m srv w =
      rw
        (
          joined-contains srv.rtpsink (inet_ntoa addr) srv.baseport,
          joined-contains srv.rtcpsink (inet_ntoa addr) (srv.baseport + 1),
        )
        refl

  -- On an active server that can be attached to, whose sink's clients are then the pairs of these
  -- addresses and ports, `rtp_server_add_receiver` returns 0: the address is added to each sink, with the port of
  -- the sink, exactly if its text is no part of the text of the sink's clients, which it then is; so a
  -- sink that has 10.0.0.10 is not given 10.0.0.1. The control lists the addresses, up to
  -- 64, and the shared memory is given back.
  pub add_receiver-IsAdded :
      (malloc_ok malloc_again : Bool) (s : Served) (addr : ℕ) (cs : List Client) (h : Host S W)
      (srv : RtpServer S) (m : ShmMapping) (w : World W) (a x y : ℕ)
      → IsReady malloc_ok s addr cs h srv m w a x y
      → (h' : Host S W) × (srv' : RtpServer S) × (add_receiver sink posix inet_aton malloc_ok
            malloc_again s addr h
          ≡ some (h', pos 0))
        × IsAdded addr cs h srv h' srv'
  unfolding add_receiver conclude
  add_receiver-IsAdded malloc_ok malloc_again s addr cs h srv m w a x y v =
      let up : RtpServer S = record srv {
        rtpsink = joined sink posix inet_aton srv.rtpsink (inet_ntoa addr) srv.baseport;
        rtcpsink = joined sink posix inet_aton srv.rtcpsink (inet_ntoa addr) (srv.baseport + 1);
      } in
      let (l', c', made, fast, slow, listed) =
        update_stats-IsListed inet_aton cs (record s { clients = sink.clients up.rtpsink }) srv.last
          srv.ctl x y v.readable v.clients v.room v.rtp_rate v.rtcp_rate in
      (
        record {
          world = (shm_destroy posix (some m) false w).1;
          server = some (record up { ctl = c'; last = l' });
        },
        record up { ctl = c'; last = l' },
        attached-up malloc_ok h srv m w (add_to sink posix inet_aton malloc_again s addr) v.attaches
              v.served v.is_up
            ∙ add_to-joins malloc_again s addr m srv w
            ∙ rw made refl,
        record {
          stays = refl;
          in_rtpsink = joined-contains srv.rtpsink (inet_ntoa addr) srv.baseport;
          in_rtcpsink = joined-contains srv.rtcpsink (inet_ntoa addr) (srv.baseport + 1);
          rtpsink_is = refl;
          rtcpsink_is = refl;
          listed = listed;
          given_back =
              shm_attach-destroy posix malloc_ok false rtp_srv_shm_name control_size h.world w m a
                v.attaches v.mapped;
        },
      )
