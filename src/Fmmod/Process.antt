-- ===== src/Fmmod/Process.antt =====
-- fmmod.c: `fmmod_process`, one period of the processing thread, and `write_to_sock`. The resampler,
-- which calls a library, and what the operating system answers are arguments.
use jmpxrds.Base.{
  ℕ, List, take, [], ◌∷◌, map, length, Option, none, some, Bool, true, false, not, ◌&&◌, ◌||◌, ◌==◌,
  if◌then◌else◌,
}
use jmpxrds.Rtp.Receivers.{RtpServerState}
use jmpxrds.Rtp.Server.{send_buffer}
use jmpxrds.Fmmod.Oscilator.{Arith}
use jmpxrds.Fmmod.Filters.{Lpf, overlay, lpf_filter_apply}
use jmpxrds.Fmmod.Mixing.{StereoModulation, Gains, Mixer, get_mpx_samples}

-- The mutexes that the thread holds; `misused` is whether one was locked that it held, or unlocked
-- that it did not hold.
pub record Locks : Type 0 where
  pub inbuf : Bool
  pub uaudio_buf : Bool
  pub mpx_buf : Bool
  pub misused : Bool

abbrev pub no_locks : Locks
no_locks = record { inbuf = false; uaudio_buf = false; mpx_buf = false; misused = false }

abbrev pub lock_inbuf : Locks → Locks
lock_inbuf k = record k { inbuf = true; misused = k.misused || k.inbuf }

abbrev pub unlock_inbuf : Locks → Locks
unlock_inbuf k = record k { inbuf = false; misused = k.misused || not k.inbuf }

abbrev pub lock_uaudio : Locks → Locks
lock_uaudio k = record k { uaudio_buf = true; misused = k.misused || k.uaudio_buf }

abbrev pub unlock_uaudio : Locks → Locks
unlock_uaudio k = record k { uaudio_buf = false; misused = k.misused || not k.uaudio_buf }

abbrev pub lock_mpx : Locks → Locks
lock_mpx k = record k { mpx_buf = true; misused = k.misused || k.mpx_buf }

abbrev pub unlock_mpx : Locks → Locks
unlock_mpx k = record k { mpx_buf = false; misused = k.misused || not k.mpx_buf }

-- The results of `pthread_mutex_trylock`: 0, EBUSY, any other.
pub data TryLock : Type 0 where
  taken : TryLock
  busy : TryLock
  refused : TryLock

-- The results of `write`: how many samples were written, EPIPE, any other error. The socket does not
-- block, so fewer can be written than there are; a part of a sample is left out.
pub data Wrote : Type 0 where
  written : ℕ → Wrote
  broken_pipe : Wrote
  write_failed : Wrote

-- `struct fmmod_instance`, as the thread uses it. `out_sock` is whether the socket is open, and
-- `on_sock` and `on_rtp` what was written and pushed so far, period by period.
pub record Instance (A D : Type 0) : Type 0 where
  pub num_in_samples : ℕ
  pub num_out_samples : ℕ
  pub inbuf_l : List A
  pub inbuf_r : List A
  pub lpf_l : Lpf A
  pub lpf_r : Lpf A
  pub mixer : Mixer A D
  pub use_audio_lpf : Bool
  pub stereo_modulation : StereoModulation
  pub peak_mpx_out : A
  pub out_sock : Bool
  pub rtp_state : RtpServerState
  pub on_sock : List (List A)
  pub on_rtp : List (List A)
  pub locks : Locks

-- What a period meets: the mutex, the resampler (an error is `none`), the socket, and the size of the
-- buffer that the RTP server gets from its pool.
pub record Period (A : Type 0) : Type 0 where
  pub trylock : TryLock
  pub upsample : List A → List A → Option (List (A × A))
  pub downsample : List A → Option (List A)
  pub open_ok : Bool
  pub write : Wrote
  pub room : Option ℕ

-- One more, if there is one.
abbrev pub logged {ℓ} : {B : Type ℓ} → Option B → List B → List B
logged none xs = xs
logged (some x) xs = x ∷ xs

module _ {A D : Type 0} (arith : Arith A D) (gains : Gains A) (enabled : Bool) (w : Period A) where
  -- `write` and what is left of the socket.
  abbrev pub write_open : Wrote → List A → Instance A D → Instance A D
  write_open (written n) out fm = record fm { out_sock = true; on_sock = take n out ∷ fm.on_sock }
  write_open broken_pipe out fm = record fm { out_sock = false }
  write_open write_failed out fm = record fm { out_sock = true }

  unfoldable pub write_to_sock : List A → Instance A D → Instance A D
  write_to_sock out fm = if not fm.out_sock && not w.open_ok then fm else write_open w.write out fm

  -- The largest sample, or 0.
  unfoldable pub peak : List A → A → A
  peak [] top = top
  peak (x ∷ xs) top = peak xs (if arith.above x top then x else top)

  -- The audio low-pass filters, on the input buffers.
  unfoldable pub filter_audio : Instance A D → Instance A D
  filter_audio fm =
      let (lpf_l, l) =
        lpf_filter_apply arith fm.lpf_l fm.inbuf_l fm.num_in_samples (arith.literal 10) in
      let (lpf_r, r) =
        lpf_filter_apply arith fm.lpf_r fm.inbuf_r fm.num_in_samples (arith.literal 10) in
      record fm {
        lpf_l = if fm.use_audio_lpf then lpf_l else fm.lpf_l;
        lpf_r = if fm.use_audio_lpf then lpf_r else fm.lpf_r;
        inbuf_l = if fm.use_audio_lpf then overlay fm.inbuf_l 0 l else fm.inbuf_l;
        inbuf_r = if fm.use_audio_lpf then overlay fm.inbuf_r 0 r else fm.inbuf_r;
      }

  -- From the downsampled signal on; the Boolean is whether SIGTERM is raised.
  unfoldable pub send_out : Option (List A) → Instance A D → Instance A D × Bool
  unfolding write_to_sock peak
  send_out none fm = (record fm { locks = unlock_mpx fm.locks }, true)
  send_out (some []) fm = (record fm { locks = unlock_mpx fm.locks }, false)
  send_out (some (x ∷ xs)) fm =
      let out = x ∷ xs in
      let shown = record fm { peak_mpx_out = peak out (arith.literal 0) } in
      let wrote = write_to_sock out shown in
      let pushed = send_buffer fm.rtp_state (some out) (length out) w.room in
      if not (length out == fm.num_out_samples)
      then (record shown { locks = unlock_mpx fm.locks }, false)
      else (
        record wrote { on_rtp = logged pushed wrote.on_rtp; locks = unlock_mpx wrote.locks },
        false,
      )

  -- L + R and L - R.
  abbrev pub sum_and_difference : A × A → A × A
  sum_and_difference (l, r) = (arith.plus l r, arith.plus l (arith.negated r))

  -- From the upsampled audio on.
  unfoldable pub mix : Option (List (A × A)) → Instance A D → Instance A D × Bool
  unfolding send_out
  mix none fm = (record fm { locks = unlock_uaudio fm.locks }, true)
  mix (some []) fm = (record fm { locks = unlock_uaudio fm.locks }, false)
  mix (some (x ∷ xs)) fm =
      let (umpx, mixer) =
        get_mpx_samples arith gains enabled fm.stereo_modulation (map sum_and_difference (x ∷ xs))
          fm.mixer in
      send_out (w.downsample umpx)
        (record fm { mixer = mixer; locks = unlock_uaudio (lock_mpx fm.locks) })

  -- Once the input buffer is locked.
  unfoldable pub process_locked : Instance A D → Instance A D × Bool
  unfolding mix filter_audio
  process_locked fm =
      let filtered = filter_audio fm in
      let upsampled = w.upsample filtered.inbuf_l filtered.inbuf_r in
      mix upsampled (record filtered { locks = unlock_inbuf (lock_uaudio filtered.locks) })

  abbrev pub try_period : TryLock → Instance A D → Instance A D × Bool
  try_period taken fm = process_locked (record fm { locks = lock_inbuf fm.locks })
  try_period busy fm = (fm, false)
  try_period refused fm = (fm, false)

  unfoldable pub process : Instance A D → Instance A D × Bool
  unfolding process_locked
  process fm = try_period w.trylock fm
