-- ===== src/Dynamic.antt =====
-- rds_dynpsrt.c: `rds_dynps_consumer_thread`, which shows a text longer than the PS in turns.
pub mod Sanitize
pub mod Trim
pub mod Clean
pub mod Radiotext
pub mod Rotate
pub mod Bounds
pub mod Keeps
pub mod Blank
pub mod Filemon
pub mod Lifecycle
pub mod Padded
pub mod Scroll
use jmpxrds.Base.{ℕ, ◌-◌, List, ◌++◌, Option, some, ◌==◌, leb, if◌then◌else◌, take, drop, replicate}
use jmpxrds.Config.State.{State}
use jmpxrds.Config.Text.{set_ps, ps_length}

-- `struct rds_dynps_state`, without its threads and locks: the text read from the file, its length,
-- what is left of it, and the station's own name.
pub record DynPs : Type 0 where
  pub string : List ℕ
  pub fixed_ps : List ℕ
  pub string_len : ℕ
  pub remaining_len : ℕ

abbrev pub segment_len : DynPs → ℕ
segment_len dps = if leb ps_length dps.remaining_len then ps_length else dps.remaining_len

-- `segment`, after `memset` and `memcpy`.
abbrev pub segment : DynPs → List ℕ
segment dps =
    take (segment_len dps) (drop (dps.string_len - dps.remaining_len) dps.string)
    ++ replicate (ps_length - segment_len dps) 0

-- What the thread does under the lock, each time it wakes up.
unfoldable pub consumer_pass : DynPs → Option State → DynPs × Option State
consumer_pass dps st =
    if dps.string_len == 0
    then (dps, st)
    else if dps.remaining_len == 0
    then (record dps { remaining_len = dps.string_len }, (set_ps st (some dps.fixed_ps)).0)
    else (
      record dps {
        remaining_len =
            if leb ps_length dps.remaining_len then dps.remaining_len - ps_length else 0;
      },
      (set_ps st (some (segment dps))).0,
    )
