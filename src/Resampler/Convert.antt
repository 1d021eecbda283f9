-- ===== src/Resampler/Convert.antt =====
-- resampler.c: `resampler_upsample_audio`, `resampler_upsample_rds` and `resampler_downsample_mpx`.
-- `soxr_process` is an argument: from the samples and the room for frames to an error, or samples.
use jmpxrds.Base.{ℕ, List, length, Option, none, some, Bool, if◌then◌else◌}
use jmpxrds.Base.Int.{ℤ, pos, minus}

module _ {A : Type 0} where
  -- The frames, and the number that is returned; after an error the buffer is the caller's.
  abbrev pub converted : Option (List A) → Option (List A) × ℤ
  converted none = (none, minus 1)
  converted (some xs) = (some xs, pos (length xs))

  unfoldable pub upsample_rds : (List A → ℕ → Option (List A)) → List A → ℕ → Option (List A) × ℤ
  upsample_rds soxr xs outframes = converted (soxr xs outframes)

  unfoldable pub downsample_mpx :
      (bypass : Bool) → (List A → ℕ → Option (List A)) → List A → ℕ → Option (List A) × ℤ
  downsample_mpx bypass soxr xs outframes =
      if bypass then (some xs, pos (length xs)) else converted (soxr xs outframes)

  -- Both channels' results: the number of the left one is returned, whatever the right one's is.
  abbrev pub both : Option (List A) → Option (List A) → Option (List A × List A) × ℤ
  both (some l) (some r) = (some (l, r), pos (length l))
  both (some l) none = (none, minus 1)
  both none r = (none, minus 1)

  unfoldable pub upsample_audio :
      (bypass : Bool)
      → (soxr_l soxr_r : List A → ℕ → Option (List A)) → List A
      → List A
      → ℕ
      → Option (List A × List A) × ℤ
  upsample_audio bypass soxr_l soxr_r in_l in_r outframes =
      if bypass
      then (some (in_l, in_r), pos (length in_l))
      else both (soxr_l in_l outframes) (soxr_r in_r outframes)
