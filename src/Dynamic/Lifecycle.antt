-- ===== src/Dynamic/Lifecycle.antt =====
-- What the initialisation of a dynamic text takes, and gives back when it fails.
use jmpxrds.Base.{Option, none, some, Bool, true, false, not, ◌&&◌, if◌then◌else◌, ◌≡◌, arith}
use jmpxrds.Base.Int.{ℤ, minus, is_neg}
use jmpxrds.Config.State.{State}
use jmpxrds.Dynamic.Filemon.{Watch, WatchAnswers, start_watch, stop_watch}

-- All that is needed is there.
abbrev pub all_ok : WatchAnswers → Bool
all_ok a = not (is_neg a.inotify_fd) && not (is_neg a.watch_fd) && a.filemon_ok && a.consumer_ok

-- Nothing is held.
pub record IsStopped (w : Watch) : Type 0 where
  pub inactive : w.active ≡ false
  pub no_threads : (w.filemon ≡ false) × (w.consumer ≡ false)
  pub no_locks : w.locks ≡ false
  pub closed : w.open_fds ≡ 0

pub record IsRunning (w : Watch) : Type 0 where
  pub is_active : w.active ≡ true
  pub threads : (w.filemon ≡ true) × (w.consumer ≡ true)
  pub has_locks : w.locks ≡ true
  pub one_open : w.open_fds ≡ 1

-- The cases of an initialisation, by whether the fixed text is missing.
abbrev pub Started :
    Bool → WatchAnswers → Option State → Option State → Option Watch × Option State × ℤ → Type 0
Started missing a st restored (none, st', ret) = (missing ≡ true) × (st' ≡ st) × (ret ≡ minus 1)
Started missing a st restored (some w, st', ret) =
    (missing ≡ false)
    × (is_neg ret ≡ not (all_ok a))
    × (if all_ok a then IsRunning w × (st' ≡ st) else IsStopped w × (st' ≡ restored))

pub start_watch-code : (a : WatchAnswers) → is_neg (start_watch a).1 ≡ not (all_ok a)
unfolding start_watch
start_watch-code a = ground arith

-- The end of either initialisation: `st'` is the state with the fixed text put back.
finish :
    (missing failed : Bool)
    → WatchAnswers
    → (st st' : Option State) → Option Watch × Option State × ℤ
finish missing failed a st st' =
    if missing
    then (none, st, minus 1)
    else if failed
    then (some (stop_watch (start_watch a).0), st', (start_watch a).1)
    else (some (start_watch a).0, st, (start_watch a).1)
