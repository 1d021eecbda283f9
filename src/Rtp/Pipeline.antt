-- ===== src/Rtp/Pipeline.antt =====
-- rtp_server.c: `rtp_init_audiosrc`, `rtp_init_audio_path` and `rtp_init_network_path`: the elements
-- that they make and link, in order. Whether GStreamer makes an element or a link is an argument.
use jmpxrds.Base.{ℕ, ◌+◌, Option, none, some, Bool, not, if◌then◌else◌}
use jmpxrds.Base.Int.{ℤ, pos, minus, is_neg}
use jmpxrds.Rtp.Blocksize.{rtp_get_flac_blocksize}

pub record AudioAnswers : Type 0 where
  pub appsrc : Bool
  pub audio_converter : Bool
  pub flac_encoder : Bool
  pub link_appsrc : Bool
  pub link_flac_encoder : Bool

abbrev pub audiosrc : AudioAnswers → ℤ
audiosrc a = if not a.appsrc then minus 1 else pos 0

-- The code, and the block size that the encoder is set to, once there is an encoder.
unfoldable pub audio_path : AudioAnswers → ℕ → ℤ × Option ℕ
audio_path a mpx_samplerate =
    let blocksize = some (rtp_get_flac_blocksize mpx_samplerate) in
    if is_neg (audiosrc a)
    then (audiosrc a, none)
    else if not a.audio_converter
    then (minus 2, none)
    else if not a.flac_encoder
    then (minus 3, none)
    else if not a.link_appsrc
    then (minus 4, blocksize)
    else if not a.link_flac_encoder
    then (minus 5, blocksize)
    else (pos 0, blocksize)

-- How many elements were made and are in no pipeline when it fails.
unfoldable pub elements_left : AudioAnswers → ℕ
elements_left a =
    if is_neg (audiosrc a)
    then 0
    else if not a.audio_converter
    then 1
    else if not a.flac_encoder
    then 2
    else 0

pub record NetworkAnswers : Type 0 where
  pub rtp_payloader : Bool
  pub link_flac_encoder : Bool
  pub rtpbin : Bool
  pub link_payloader : Bool
  pub rtpsink : Bool
  pub link_rtpsink : Bool
  pub rtcpsrc : Bool
  pub link_rtcpsrc : Bool
  pub rtcpsink : Bool
  pub link_rtcpsink : Bool

-- The ports that the sinks and the source are set to, and the references to pads that are held.
pub record Network : Type 0 where
  pub rtp_bind_port : Option ℕ
  pub rtcp_bind_port : Option ℕ
  pub rtcp_port : Option ℕ
  pub pads : ℕ

abbrev no_network : Network
no_network = record { rtp_bind_port = none; rtcp_bind_port = none; rtcp_port = none; pads = 0 }

-- The code and the network. A link that fails keeps the references to its two pads.
unfoldable pub network_path : NetworkAnswers → ℕ → ℤ × Network
network_path a baseport =
    let with_rtpsink = record no_network { rtp_bind_port = some baseport } in
    let with_rtcpsrc = record with_rtpsink { rtcp_port = some (baseport + 2) } in
    let with_rtcpsink = record with_rtcpsrc { rtp_bind_port = some (baseport + 1) } in
    if not a.rtp_payloader
    then (minus 1, no_network)
    else if not a.link_flac_encoder
    then (minus 2, no_network)
    else if not a.rtpbin
    then (minus 3, no_network)
    else if not a.link_payloader
    then (minus 4, record no_network { pads = 2 })
    else if not a.rtpsink
    then (minus 5, no_network)
    else if not a.link_rtpsink
    then (minus 6, record with_rtpsink { pads = 2 })
    else if not a.rtcpsrc
    then (minus 7, with_rtpsink)
    else if not a.link_rtcpsrc
    then (minus 8, record with_rtcpsrc { pads = 2 })
    else if not a.rtcpsink
    then (minus 9, with_rtcpsrc)
    else if not a.link_rtcpsink
    then (minus 10, record with_rtcpsink { pads = 2 })
    else (pos 0, with_rtcpsink)
