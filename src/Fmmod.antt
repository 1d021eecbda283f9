-- ===== src/Fmmod.antt =====
-- fmmod.c with oscilator.c and filters.c: from two channels of audio to the multiplex signal, and what
-- the modulator and its filters hold from their initialisation to their end.
pub mod Oscilator
pub mod Filters
pub mod Mixing
pub mod Stream
pub mod Process
pub mod Sent
pub mod Period
pub mod Input
pub mod Accept
pub mod FilterLife
pub mod Parts
pub mod PartLaws
pub mod Life
pub mod LifeLaws
pub mod Lifetime
pub mod Window
