-- ===== src/Dynamic/Filemon.antt =====
-- rds_dynpsrt.c: the pass of `rds_dynps_filemon_thread` on an event, and what both dynamic texts
-- take and give back: `rds_dynps_init`, `rds_dynrt_init` and the two functions for the end. What
-- the C library and the operating system answer is an argument.
use jmpxrds.Base.{
  ℕ, ◌+◌, ◌-◌, List, ◌++◌, Option, none, some, Bool, true, false, not, ◌||◌, take, replicate,
  length, ◌==◌, if◌then◌else◌,
}
use jmpxrds.Base.Int.{ℤ, pos, negsuc, minus, is_neg}
use jmpxrds.Config.State.{State}
use jmpxrds.Config.Text.{strnlen, set_ps, set_rt, ps_length, rt_length}
use jmpxrds.Dynamic.Sanitize.{sanitize}

-- The text that the consumer shows, its length and what is left of it.
pub record FileText : Type 0 where
  pub string : List ℕ
  pub string_len : ℕ
  pub remaining_len : ℕ

abbrev pub dynps_max_chars : ℕ
dynps_max_chars = 65

-- `fgets` into the cleared buffer, of what it reads, at most 64 bytes; `none` in the place of the
-- bytes is a file that cannot be read, and of the whole a file that cannot be opened.
unfoldable pub ps_filemon_pass : Option (Option (List ℕ)) → FileText → FileText
ps_filemon_pass none t = t
ps_filemon_pass (some none) t = record t { string = replicate dynps_max_chars 0; string_len = 0 }
ps_filemon_pass (some (some read)) t =
    let (ret, string) =
      sanitize (read ++ replicate (dynps_max_chars - length read) 0) dynps_max_chars in
    elim ret [
      | negsuc e ↦ record t { string = string; string_len = 0 }
      | pos n ↦
          if n == 0
          then record t { string = string; string_len = 0 }
          else record { string = string; string_len = n; remaining_len = n }
    ]

-- The threads, locks and descriptors of one dynamic text: `open_fds` counts the inotify descriptors
-- that are open.
pub record Watch : Type 0 where
  pub active : Bool
  pub inotify_fd : ℤ
  pub watch_fd : ℤ
  pub filemon : Bool
  pub consumer : Bool
  pub locks : Bool
  pub open_fds : ℕ

-- What `inotify_init` and `inotify_add_watch` return, and whether the two threads start.
pub record WatchAnswers : Type 0 where
  pub inotify_fd : ℤ
  pub watch_fd : ℤ
  pub filemon_ok : Bool
  pub consumer_ok : Bool

abbrev pub is_fd_zero : ℤ → Bool
is_fd_zero (pos n) = n == 0
is_fd_zero (negsuc n) = false

-- After `memset`, and with the locks.
abbrev pub cleared_watch : Watch
cleared_watch = record {
  active = false;
  inotify_fd = pos 0;
  watch_fd = pos 0;
  filemon = false;
  consumer = false;
  locks = true;
  open_fds = 0;
}

-- The end of both dynamic texts, apart from the fixed text: the consumer is woken up and joined, the
-- watch removed, which wakes up the file monitor, the descriptor closed if it is not 0, and the
-- file monitor joined. A negative descriptor is not open, and closing it fails.
unfoldable pub stop_watch : Watch → Watch
stop_watch w = record w {
  active = false;
  consumer = false;
  filemon = false;
  locks = false;
  open_fds = if is_fd_zero w.inotify_fd || is_neg w.inotify_fd then w.open_fds else w.open_fds - 1;
}

-- What both initialisations do after the fixed text is kept: the state, and the code that they go
-- to their cleanup with, or 0.
unfoldable pub start_watch : WatchAnswers → Watch × ℤ
start_watch a =
    let opened = record cleared_watch {
      inotify_fd = a.inotify_fd;
      open_fds = if is_neg a.inotify_fd then 0 else 1;
    } in
    let watched = record opened { watch_fd = a.watch_fd } in
    let running = record watched { active = true; filemon = a.filemon_ok } in
    if is_neg a.inotify_fd
    then (opened, minus 2)
    else if is_neg a.watch_fd
    then (watched, minus 3)
    else if not a.filemon_ok
    then (running, minus 4)
    else if not a.consumer_ok
    then (running, minus 5)
    else (record running { consumer = true }, pos 0)

-- `strncpy(fixed, text, n)` into a cleared array of n + 1 bytes.
unfoldable pub copy_fixed : ℕ → List ℕ → List ℕ
copy_fixed n text = take (strnlen text n) text ++ replicate (n + 1 - strnlen text n) 0

unfoldable pub dynps_destroy : Watch → List ℕ → Option State → Watch × Option State
unfolding stop_watch
dynps_destroy w fixed_ps st = (stop_watch w, (set_ps st (some fixed_ps)).0)

unfoldable pub dynrt_destroy : Watch → List ℕ → Option State → Watch × Option State
unfolding stop_watch
dynrt_destroy w fixed_rt st = (stop_watch w, (set_rt st (some fixed_rt) true).0)

-- `rds_dynps_init`: the threads and descriptors, if the request is not ignored, the encoder's state,
-- and the return value.
unfoldable pub dynps_init : WatchAnswers → State → Option Watch × Option State × ℤ
unfolding start_watch dynps_destroy copy_fixed
dynps_init a st =
    let (w, code) = start_watch a in
    let (w', st') = dynps_destroy w (copy_fixed ps_length st.ps) (some st) in
    if st.ps_set == 0
    then (none, some st, minus 1)
    else if is_neg code
    then (some w', st', code)
    else (some w, some st, code)

unfoldable pub dynrt_init : WatchAnswers → State → Option Watch × Option State × ℤ
unfolding start_watch dynrt_destroy copy_fixed
dynrt_init a st =
    let (w, code) = start_watch a in
    let (w', st') = dynrt_destroy w (copy_fixed rt_length st.rt) (some st) in
    if st.rt_set == 0
    then (none, some st, minus 1)
    else if is_neg code
    then (some w', st', code)
    else (some w, some st, code)
