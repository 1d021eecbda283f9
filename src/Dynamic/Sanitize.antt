-- ===== src/Dynamic/Sanitize.antt =====
-- rds_dynpsrt.c: `rds_string_sanitize`, on a buffer of bytes. `isspace` is the C library's, in the
-- locale "C".
use jmpxrds.Base.{
  ℕ, zero, suc, ◌+◌, ◌-◌, List, ◌++◌, get_or, set, take, drop, Bool, true, false, ◌&&◌, ◌||◌, ◌==◌,
  leb, if◌then◌else◌,
}
use jmpxrds.Base.Int.{ℤ, pos, minus}
use jmpxrds.Config.Text.{strnlen}

unfoldable pub is_space : ℕ → Bool
is_space c = c == 32 || leb 9 c && leb c 13

-- `while(isspace(string[len - i]) && i <= len)`, with `left` the `len - i + 1` bytes before the
-- place that is looked at; the result has what is left of them. The byte before the string, which
-- the test reads when nothing is left, does not change the result.
unfoldable pub trim_end : ℕ → List ℕ → ℕ × List ℕ
unfolding is_space
trim_end zero string = (0, string)
trim_end (suc left) string = elim (is_space (get_or string left 0)) [
  | true ↦ trim_end left (set string left 0)
  | false ↦ (suc left, string)
]

-- `while(isspace(string[off]) && off < len - 1)`, with `left` the rounds that `len - 1` allows.
unfoldable pub skip_spaces : ℕ → List ℕ → ℕ → ℕ
unfolding is_space
skip_spaces zero string off = off
skip_spaces (suc left) string off = elim (is_space (get_or string off 0)) [
  | true ↦ skip_spaces left string (off + 1)
  | false ↦ off
]

-- `memmove(string, string + off, n)`
abbrev pub move_down : ℕ → ℕ → List ℕ → List ℕ
move_down off n string = take n (drop off string) ++ drop n string

-- `if(off > 0) { … }`
unfoldable pub move_in_place : ℕ → ℕ → List ℕ → List ℕ
unfolding is_space
move_in_place len off string =
    let moved = move_down off (len - off) string in
    if off == 0
    then string
    else if is_space (get_or moved (len - 1) 0)
    then moved
    else set moved (len - off - 1) 0

-- The return value and the string; `i == len` says that one byte is left.
unfoldable pub sanitize : List ℕ → ℕ → ℤ × List ℕ
unfolding trim_end skip_spaces move_in_place
sanitize string max_len =
    let len = strnlen string max_len in
    let (left, trimmed) = trim_end len string in
    let moved = move_in_place len (skip_spaces (len - 1) trimmed 0) trimmed in
    if len == 0
    then (minus 1, string)
    else if left == 1
    then (minus 2, trimmed)
    else (pos (strnlen moved max_len), moved)
