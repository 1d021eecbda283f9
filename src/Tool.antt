-- ===== src/Tool.antt =====
-- The command-line tools and the daemon's main function: rds_tool.c, fmmod_tool.c, rtp_tool.c, main.c.
pub mod Rds
pub mod RdsLaws
pub mod Daemon
pub mod DaemonLaws
pub mod Admission
pub mod Modulator
pub mod ModulatorLaws
