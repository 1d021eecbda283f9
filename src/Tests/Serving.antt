-- ===== src/Tests/Serving.antt =====
-- The RTP server at concrete inputs: two sinks that keep the text of their clients.
use jmpxrds.Base.{
  ℕ, List, [], ◌∷◌, ◌++◌, Option, some, true, false, ◌==◌, if◌then◌else◌, ◌≡◌, refl, arith,
  replicate,
}
use jmpxrds.Base.Int.{pos}
use jmpxrds.Shm.Mapping.{ShmMapping, World, at, shm_attach}
use jmpxrds.Rtp.Blocksize.{rtp_get_flac_blocksize}
use jmpxrds.Rtp.BlocksizeLaws.{IsLargest, rtp_get_flac_blocksize-IsLargest}
use jmpxrds.Rtp.Stats.{Served, rate}
use jmpxrds.Rtp.Address.{Client, clients_text, inet_ntoa}
use jmpxrds.Rtp.Receivers.{
  MultiUdpSink, RtpServer, Host, contains, is_prefix, active, inactive, add_receiver,
}
use jmpxrds.Rtp.Admit.{IsReady, IsAdded, add_receiver-IsAdded}
use jmpxrds.Rtp.Server.{Server, ServerAnswers, rtp_server_init}
use jmpxrds.Rtp.Lifecycle.{Started, rtp_server_init-Started}
use jmpxrds.Tests.Sharing.{Names, table}

rtp_get_flac_blocksize-IsLargest_example : IsLargest 16 20160 (rtp_get_flac_blocksize 192000)
rtp_get_flac_blocksize-IsLargest_example = rtp_get_flac_blocksize-IsLargest 192000 (omega arith)

is_prefix-append : (t s : List ℕ) → is_prefix t (t ++ s) ≡ true
is_prefix-append [] s = refl
is_prefix-append (c ∷ t) s = rw (eq_self c) (is_prefix-append t s)
  where
    eq_self : (n : ℕ) → (n == n) ≡ true
    eq_self n = ground arith

contains-append : (t s : List ℕ) → contains (t ++ s) t ≡ true
contains-append [] [] = refl
contains-append [] (c ∷ s) = refl
contains-append (c ∷ t) s = rw (is_prefix-append (c ∷ t) s) refl

-- A host is put before the others; the port's text is "5" with the rest left out.
abbrev pub put : List ℕ → List ℕ → List ℕ
put [] host = host ++ 58 ∷ 53 ∷ []
put (c ∷ s) host = host ++ 58 ∷ 53 ∷ 44 ∷ c ∷ s

pub put-contains : (s host : List ℕ) → contains (put s host) host ≡ true
put-contains [] host = contains-append host (58 ∷ 53 ∷ [])
put-contains (c ∷ s) host = contains-append host (58 ∷ 53 ∷ 44 ∷ c ∷ s)

abbrev pub text_sink : MultiUdpSink (List ℕ)
text_sink = record {
  clients = λ s. s;
  add = λ s host port. put s host;
  remove = λ s host port. s;
  add_contains = λ s host port. put-contains s host;
}

-- The addresses 10.0.0.1 and 10.0.0.2.
abbrev pub addr_1 : ℕ
addr_1 = 16777226

abbrev pub addr_2 : ℕ
addr_2 = 33554442

-- It reads an address by its last digit.
abbrev pub aton : List ℕ → Option ℕ
aton s = if contains s (48 ∷ 46 ∷ 49 ∷ []) then some addr_1 else some addr_2

abbrev pub rtp_1 : RtpServer (List ℕ)
rtp_1 = record {
  state = active;
  rtpsink = put [] (inet_ntoa addr_1);
  rtcpsink = put [] (inet_ntoa addr_1);
  baseport = 5000;
  ctl = record {
    rtp_tx_kbytesps = 0;
    rtcp_tx_kbytesps = 0;
    num_receivers = 0;
    receivers = replicate 64 0;
  };
  last = record { timestamp = 1000000; rtp_bytes_served = 2048; rtcp_bytes_served = 0 };
}

abbrev pub served_1 : Served
served_1 = record { timestamp = 2000000; rtp_bytes = 12288; rtcp_bytes = 1024; clients = [] }

abbrev pub process_1 : Host (List ℕ) Names
process_1 = record { world = record { os = λ k. k == 2; blocks = 1 }; server = some rtp_1 }

abbrev pub world_3 : World Names
world_3 = record { os = λ k. k == 2; blocks = 2 }

abbrev pub mapping_2 : ShmMapping
mapping_2 = record { name = 2; size = 296; fd = pos 3; mem = at 4096 }

abbrev pub clients_1 : List Client
clients_1 =
    record { host = addr_2; port_text = 53 ∷ [] }
    ∷ record { host = addr_1; port_text = 53 ∷ [] }
    ∷ []

pub process_1-IsReady :
    IsReady text_sink table aton true served_1 addr_2 clients_1 process_1 rtp_1 mapping_2 world_3
      4096 10 1
unfolding shm_attach clients_text inet_ntoa rate
process_1-IsReady = record {
  attaches = refl;
  mapped = refl;
  served = refl;
  is_up = refl;
  clients = refl;
  readable = (
    record { reads = refl; port = (λ e. absurd (omega (arith, e)), tt) },
    (record { reads = refl; port = (λ e. absurd (omega (arith, e)), tt) }, tt),
  );
  room = refl;
  rtp_rate = refl;
  rtcp_rate = refl;
}

add_receiver-IsAdded_example :
    (h' : Host (List ℕ) Names) × (srv' : RtpServer (List ℕ)) × (add_receiver text_sink table aton
        true true served_1 addr_2 process_1
      ≡ some (h', pos 0))
    × IsAdded text_sink table aton addr_2 clients_1 process_1 rtp_1 h' srv'
add_receiver-IsAdded_example =
    add_receiver-IsAdded text_sink table aton true true served_1 addr_2 clients_1 process_1 rtp_1
      mapping_2 world_3 4096 10 1 process_1-IsReady

abbrev idle_1 : Server
idle_1 = record {
  state = inactive;
  gst = false;
  ctl_map = false;
  pipeline = false;
  msgbus = false;
  pool = false;
  loop = false;
  pads = 0;
  elements = 0;
  stats_timer = false;
}

abbrev pub answers_4 : ServerAnswers
answers_4 = record {
  shm = true;
  pipeline = true;
  audio = record {
    appsrc = true;
    audio_converter = true;
    flac_encoder = true;
    link_appsrc = true;
    link_flac_encoder = true;
  };
  network = record {
    rtp_payloader = true;
    link_flac_encoder = true;
    rtpbin = true;
    link_payloader = true;
    rtpsink = true;
    link_rtpsink = true;
    rtcpsrc = true;
    link_rtcpsrc = false;
    rtcpsink = true;
    link_rtcpsink = true;
  };
  pool_ready = true;
  playing = true;
  thread_code = pos 0;
}

rtp_server_init-Started_example :
    Started answers_4 idle_1 (rtp_server_init answers_4 idle_1 192000 5000)
rtp_server_init-Started_example =
    rtp_server_init-Started answers_4 idle_1 192000 5000
      (record { unmapped = refl; no_pipeline = (refl, refl); no_pool = refl; no_loop = refl })
