-- ===== src/Dynamic/Radiotext.antt =====
-- rds_dynpsrt.c: the dynamic RadioText, `rds_dynrt_get_line`, the pass of `rds_dynrt_filemon_thread`
-- on an event, and that of `rds_dynrt_consumer_thread` on a wake-up. What `fopen` and `getline` give is
-- an argument.
use jmpxrds.Base.{
  ℕ, zero, suc, ◌+◌, ◌-◌, List, [], ◌∷◌, ◌++◌, Option, none, some, true, get_or, set, take,
  replicate, length, ◌==◌, leb, ltb, if◌then◌else◌,
}
use jmpxrds.Base.Int.{ℤ, pos, negsuc, minus}
use jmpxrds.Config.State.{State}
use jmpxrds.Config.Text.{strnlen, set_rt, rt_length}
use jmpxrds.Dynamic.Sanitize.{sanitize}

abbrev pub dynrt_max_segments : ℕ
dynrt_max_segments = 3

-- `struct rds_dynrt_state`, without its threads, locks and descriptors.
pub record DynRt : Type 0 where
  pub rt_segments : List (List ℕ)
  pub fixed_rt : List ℕ
  pub curr_segment : ℕ
  pub num_segments : ℕ

-- What `getline` reads: the line, and what its buffer holds behind the line and a 0.
pub record Line : Type 0 where
  pub text : List ℕ
  pub rest : List ℕ

abbrev pub line_buffer : Line → List ℕ
line_buffer l = l.text ++ 0 ∷ l.rest

-- `rds_dynrt_get_line` of a line that could be read: the return value and the buffer.
unfoldable pub get_line : Line → ℤ × List ℕ
get_line l =
    if ltb rt_length (length l.text)
    then (minus 1, line_buffer l)
    else sanitize (line_buffer l) (length (line_buffer l))

-- `memset` of a segment, and `strncpy(segment, res, n)`.
unfoldable pub copy_segment : ℕ → List ℕ → List ℕ
copy_segment n res = take (strnlen res n) res ++ replicate (rt_length + 1 - strnlen res n) 0

-- The loop over the lines; a line that cannot be read is the end of the list.
unfoldable pub read_segments : ℕ → List Line → DynRt → DynRt
unfolding copy_segment
read_segments zero lines drt = drt
read_segments (suc left) [] drt = drt
read_segments (suc left) (l ∷ lines) drt = elim ((get_line l).0) [
  | negsuc e ↦ drt
  | pos n ↦ read_segments left lines (record drt {
    rt_segments = set drt.rt_segments drt.num_segments (copy_segment n (get_line l).1);
    num_segments = drt.num_segments + 1;
  })
]

-- The pass of the file monitor; `none` is a file that cannot be opened.
unfoldable pub filemon_pass : Option (List Line) → DynRt → Option State → DynRt × Option State
unfolding read_segments
filemon_pass none drt st = (drt, st)
filemon_pass (some lines) drt st =
    let drt' = read_segments dynrt_max_segments lines (record drt { num_segments = 0 }) in
    (drt', if drt'.num_segments == 0 then (set_rt st (some drt'.fixed_rt) true).0 else st)

-- The segment that the consumer comes to.
abbrev pub next_segment : DynRt → ℕ
next_segment drt = if leb drt.num_segments drt.curr_segment then 0 else drt.curr_segment

-- The pass of the consumer.
unfoldable pub rotate_pass : DynRt → Option State → DynRt × Option State
rotate_pass drt st = if drt.num_segments == 0 then (drt, st) else (
  record drt { curr_segment = next_segment drt + 1 },
  (set_rt st (some (get_or drt.rt_segments (next_segment drt) [])) true).0,
)
