-- ===== src/Config/Text.antt =====
-- The setters and getters of the three texts: rds_config.c. A C string is the list of the bytes at
-- its pointer; it ends at its first 0 or at the list's end.
use jmpxrds.Base.{
  ℕ, zero, suc, ◌+◌, ◌/◌, ◌%◌, ◌^◌, List, [], ◌∷◌, ◌++◌, Option, none, some, Bool, not, ◌&&◌, ◌||◌,
  get_or, set, take, replicate, ◌==◌, ltb, if◌then◌else◌,
}
use jmpxrds.Base.Int.{pos, minus, ltb_ℤ, leb_ℤ, eqb_ℤ, signed_char}
use jmpxrds.Config.State.{State, Setting}

abbrev pub ps_length : ℕ
ps_length = 8

abbrev pub ptyn_length : ℕ
ptyn_length = 8

abbrev pub rt_length : ℕ
rt_length = 64

unfoldable pub strnlen : List ℕ → ℕ → ℕ
strnlen s zero = 0
strnlen [] (suc n) = 0
strnlen (c ∷ s) (suc n) = if c == 0 then 0 else suc (strnlen s n)

-- The loop `for (i = 0; i < len; i++) dst[i] = …`, with `left` rounds to go.
unfoldable pub store_chars : (ℕ → ℕ) → List ℕ → ℕ → ℕ → List ℕ → List ℕ
store_chars keep s zero i dst = dst
store_chars keep s (suc left) i dst =
    store_chars keep s left (i + 1) (set dst i (keep (get_or s i 0)))

-- What is stored for a character of the PS and of the PTYN.
unfoldable pub keep_name_char : ℕ → ℕ
keep_name_char c =
    if leb_ℤ (pos 0x20) (signed_char c) || eqb_ℤ (signed_char c) (pos 0x7F) then c else 0

-- What is stored for a character of the RT.
unfoldable pub keep_rt_char : ℕ → ℕ
keep_rt_char c =
    let v = signed_char c in
    if ltb_ℤ v (pos 0x20)
        && (not (eqb_ℤ v (pos 0x0D))
            || not (eqb_ℤ v (pos 0x0A))
            || not (eqb_ℤ v (pos 0x0B))
            || not (eqb_ℤ v (pos 0x1F)))
      || eqb_ℤ v (pos 0x7F)
    then 0
    else c

-- The nine bytes of the static buffer.
unfoldable pub get_ps : Option State → Option (List ℕ)
get_ps none = none
get_ps (some st) = some (take ps_length st.ps ++ 0 ∷ [])

unfoldable pub set_ps : Option State → Option (List ℕ) → Setting
unfolding strnlen store_chars keep_name_char
set_ps none ps = (none, minus 1)
set_ps (some st) none = (some st, minus 1)
set_ps (some st) (some ps) =
    let pslen = strnlen ps ps_length in
    if pslen == 0 || ltb ps_length pslen
    then (some st, minus 2)
    else let cleared = replicate ps_length 0 in
      if pslen == 0 then (some (record st { ps = cleared; ps_set = 0 }), pos 0) else (
        some (record st {
          ps = store_chars keep_name_char ps pslen 0 cleared;
          ps_set = 1;
          ps_idx = 0;
        }),
        pos 0,
      )

unfoldable pub get_ptyn : Option State → Option (List ℕ)
get_ptyn none = none
get_ptyn (some st) = if st.ptyn_set == 0 then none else some (take ptyn_length st.ptyn ++ 0 ∷ [])

unfoldable pub set_ptyn : Option State → Option (List ℕ) → Setting
unfolding strnlen store_chars keep_name_char
set_ptyn none ptyn = (none, minus 1)
set_ptyn (some st) none = (some st, minus 1)
set_ptyn (some st) (some ptyn) =
    let ptynlen = strnlen ptyn ptyn_length in
    let cleared = replicate ptyn_length 0 in
    if ltb ptyn_length ptynlen
    then (some st, minus 1)
    else if ptynlen == 0
    then (some (record st { ptyn_set = 0; ptyn = cleared }), pos 0)
    else (
      some (record st {
        ptyn = store_chars keep_name_char ptyn ptynlen 0 cleared;
        ptyn_set = 1;
        ptyn_idx = 0;
        ptyn_flush =
            if st.ptyn_set == 0 then st.ptyn_flush else (if st.ptyn_flush == 0 then 1 else 0);
      }),
      pos 0,
    )

-- No test against NULL here.
unfoldable pub get_rt : State → Option (List ℕ)
get_rt st = if st.rt_set == 0 then none else some (take rt_length st.rt ++ 0 ∷ [])

-- `while (i % 4 && i < RDS_RT_LENGTH - 1)`, with fuel: three rounds always suffice.
unfoldable pub pad_rt : ℕ → ℕ → List ℕ → ℕ × List ℕ
pad_rt zero i rt = (i, rt)
pad_rt (suc fuel) i rt =
    let rest = pad_rt fuel (i + 1) (set rt i 0x20) in
    if not (i % 4 == 0) && ltb i 63 then rest else (i, rt)

-- `rt_segments` is a bit-field of 4 bits.
unfoldable pub set_rt : Option State → Option (List ℕ) → Bool → Setting
unfolding strnlen store_chars keep_rt_char pad_rt
set_rt none rt flush = (none, minus 1)
set_rt (some st) none flush = (some st, minus 1)
set_rt (some st) (some rt) flush =
    let rtlen = strnlen rt rt_length in
    let cleared = replicate rt_length 0 in
    let (i, padded) = pad_rt 3 rtlen (store_chars keep_rt_char rt rtlen 0 cleared) in
    if ltb rt_length rtlen
    then (some st, minus 1)
    else if rtlen == 0
    then (some (record st { rt_set = 0; rt = cleared }), pos 0)
    else (
      some (record st {
        rt = padded;
        rt_set = 1;
        rt_idx = 0;
        rt_segments = i / 4 % 2 ^ 4;
        rt_flush =
            if flush && not (st.rt_set == 0)
            then (if st.rt_flush == 0 then 1 else 0)
            else st.rt_flush;
      }),
      pos 0,
    )
