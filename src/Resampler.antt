-- ===== src/Resampler.antt =====
-- resampler.c: the three resamplers over libsoxr, whose answers are arguments.
pub mod Life
pub mod Laws
pub mod Convert
