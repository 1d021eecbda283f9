-- ===== src/Config.antt =====
-- rds_config.c and rds_encoder.h: `struct rds_encoder_state`, and the getters and setters of its
-- numeric fields. A pointer that the source tests against NULL is an option.
pub mod State
pub mod Text
pub mod Texts
pub mod Segments
pub mod Valid
