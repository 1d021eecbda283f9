-- ===== src/Rtp.antt =====
-- rtp_server.c: the RTP server.
pub mod Blocksize
pub mod BlocksizeLaws
pub mod Stats
pub mod Address
pub mod Listed
pub mod Receivers
pub mod Admit
pub mod Pipeline
pub mod Server
pub mod Leaks
pub mod Lifecycle
