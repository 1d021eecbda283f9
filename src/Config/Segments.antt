-- ===== src/Config/Segments.antt =====
-- `rds_set_rt`: the padding loop, the stored text, and the number of segments that will be sent.
use jmpxrds.Base.{
  ℕ, zero, suc, ◌+◌, ◌*◌, ◌/◌, ◌%◌, ◌≤◌, min, List, [], ◌∷◌, ◌∙◌, get_or-replicate, some, Bool,
  false, not, ◌&&◌, length, get_or, set, replicate, ◌==◌, leb, ltb, if◌then◌else◌, ◌≡◌, refl, arith,
  get_or-set_self, get_or-set_ne, length-set,
}
use jmpxrds.Base.Int.{pos}
use jmpxrds.Config.State.{State}
use jmpxrds.Config.Text.{strnlen, keep_rt_char, pad_rt, set_rt}
use jmpxrds.Config.Texts.{field_text, length-field_text, strnlen-le, store_chars-eq}

-- Where the padding stops.
abbrev pub rt_end : ℕ → ℕ
rt_end n = if n % 4 == 0 then n else min (n / 4 * 4 + 4) 63

-- Three rounds are enough fuel: the loop stops by its own test.
pub pad_rt-end : (n : ℕ) (d : List ℕ) → n ≤ 64 → (pad_rt 3 n d).0 ≡ rt_end n
unfolding pad_rt
pad_rt-end n d h = ground arith

pub length-pad_rt : (f n : ℕ) (d : List ℕ) → length (pad_rt f n d).1 ≡ length d
unfolding pad_rt
length-pad_rt zero n d = refl
length-pad_rt (suc f) n d =
    ground (arith, length-pad_rt f (n + 1) (set d n 0x20), length-set d n 0x20)

pub pad_rt-ge : (f n : ℕ) (d : List ℕ) → n ≤ (pad_rt f n d).0
unfolding pad_rt
pad_rt-ge zero n d = omega arith
pad_rt-ge (suc f) n d = ground (arith, pad_rt-ge f (n + 1) (set d n 0x20))

-- Spaces from the end of the text to the end of its last segment, nothing else.
pub get_or-pad_rt :
    (f n : ℕ) (d : List ℕ) (j : ℕ)
    → length d ≡ 64
    → get_or (pad_rt f n d).1 j 0
      ≡ (if leb n j && ltb j (pad_rt f n d).0 then 0x20 else get_or d j 0)
unfolding pad_rt
get_or-pad_rt zero n d j e = ground arith
get_or-pad_rt (suc f) n d j e = ground (
  arith,
  get_or-pad_rt f (n + 1) (set d n 0x20) j,
  length-set d n 0x20,
  get_or-set_self d n 0x20 0,
  get_or-set_ne d n j 0x20 0,
  pad_rt-ge f (n + 1) (set d n 0x20),
)

-- The stored text.
abbrev pub rt_field : List ℕ → List ℕ
rt_field s = (pad_rt 3 (strnlen s 64) (field_text keep_rt_char 64 s)).1

-- How many segments of four characters `rds_set_rt` announces for a text of `n` characters.
abbrev pub segments : ℕ → ℕ
segments n = if leb n 60 then (n + 3) / 4 else (if leb n 63 then 15 else 0)

announced : (n : ℕ) (d : List ℕ) → n ≤ 64 → (pad_rt 3 n d).0 / 4 % 16 ≡ segments n
announced n d h = ground (arith, pad_rt-end n d h)

not_longer : (n : ℕ) → n ≤ 64 → ltb 64 n ≡ false
not_longer n h = ground arith

-- A character of the stored text: what is printable, and 0 for all else.
abbrev pub shown_char : ℕ → ℕ
shown_char c = if leb 32 c && leb c 126 then c else 0

keep_rt_char-shown : (c : ℕ) → keep_rt_char c ≡ shown_char c
unfolding keep_rt_char
keep_rt_char-shown c = ground arith

get_or-field_text :
    (n : ℕ) (s : List ℕ) (j : ℕ)
    → get_or (field_text keep_rt_char n s) j 0
      ≡ (if ltb j (strnlen s n) then shown_char (get_or s j 0) else 0)
unfolding field_text strnlen
get_or-field_text zero s j = ground arith
get_or-field_text (suc n) [] j = ground (arith, get_or-replicate {A = ℕ} (suc n) j 0)
get_or-field_text (suc n) (c ∷ s) zero = ground (arith, keep_rt_char-shown c)
get_or-field_text (suc n) (c ∷ s) (suc j) =
    ground (arith, get_or-field_text n s j, get_or-replicate {A = ℕ} n j 0)

-- What is stored: the text's characters, spaces to the end of its last segment, and 0 from there on.
pub record IsRtField (s field : List ℕ) : Type 0 where
  pub whole : length field ≡ 64
  pub chars :
      (j : ℕ)
      → get_or field j 0 ≡ (
          if ltb j (strnlen s 64)
          then shown_char (get_or s j 0)
          else (if ltb j (rt_end (strnlen s 64)) then 32 else 0))

rt_end-ge : (n : ℕ) → n ≤ 64 → n ≤ rt_end n
rt_end-ge n h = ground arith

rt_field-IsRtField : (s : List ℕ) → IsRtField s (rt_field s)
rt_field-IsRtField s = record {
  whole =
      length-pad_rt 3 (strnlen s 64) (field_text keep_rt_char 64 s)
      ∙ length-field_text keep_rt_char 64 s;
  chars = λ j.
      get_or-pad_rt 3 (strnlen s 64) (field_text keep_rt_char 64 s) j
        (length-field_text keep_rt_char 64 s)
      ∙ ground (
        arith,
        pad_rt-end (strnlen s 64) (field_text keep_rt_char 64 s) (strnlen-le s 64),
        get_or-field_text 64 s j,
        rt_end-ge (strnlen s 64) (strnlen-le s 64),
      );
}

-- `rds_set_rt` on every text, with what it stores computed.
pub set_rt-stored :
    (st : State) (s : List ℕ) (flush : Bool)
    → set_rt (some st) (some s) flush ≡ (
        if strnlen s 64 == 0
        then (some (record st { rt_set = 0; rt = replicate 64 0 }), pos 0)
        else (
          some (record st {
            rt = rt_field s;
            rt_set = 1;
            rt_idx = 0;
            rt_segments = segments (strnlen s 64);
            rt_flush =
                if flush && not (st.rt_set == 0)
                then (if st.rt_flush == 0 then 1 else 0)
                else st.rt_flush;
          }),
          pos 0,
        ))
unfolding set_rt
set_rt-stored st s flush = rw (
  store_chars-eq keep_rt_char 64 s,
  announced (strnlen s 64) (field_text keep_rt_char 64 s) (strnlen-le s 64),
  not_longer (strnlen s 64) (strnlen-le s 64),
)

-- `rds_set_rt` on every text: an empty one clears the field and its flag; any other is stored with
-- each byte that is not from 32 to 126 replaced by 0, also those that the standard gives a meaning (CR,
-- LF, the end of a headline, the soft hyphen), with spaces from its end to that of its last
-- segment, at most to the 63rd character, and 0 from there on. The A/B flag is flipped if the
-- caller asks for it and a text was set, and the number of segments is that of the characters
-- rounded up for texts of up to 60 characters, 15 for 61 to 63, and 0 for 64 or more.
pub set_rt-eq :
    (st : State) (s : List ℕ) (flush : Bool)
    → (field : List ℕ) × IsRtField s field
      × (set_rt (some st) (some s) flush ≡ (
          if strnlen s 64 == 0
          then (some (record st { rt_set = 0; rt = replicate 64 0 }), pos 0)
          else (
            some (record st {
              rt = field;
              rt_set = 1;
              rt_idx = 0;
              rt_segments = segments (strnlen s 64);
              rt_flush =
                  if flush && not (st.rt_set == 0)
                  then (if st.rt_flush == 0 then 1 else 0)
                  else st.rt_flush;
            }),
            pos 0,
          )))
set_rt-eq st s flush = (rt_field s, rt_field-IsRtField s, set_rt-stored st s flush)
