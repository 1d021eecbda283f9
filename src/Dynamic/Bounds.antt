-- ===== src/Dynamic/Bounds.antt =====
-- How long a line is that `rds_dynrt_get_line` accepts, and a segment that is copied of it.
use jmpxrds.Base.{
  ℕ, zero, suc, ◌+◌, ◌-◌, ◌≤◌, List, [], ◌∷◌, get_or, set, take, replicate, length, Bool-cases, ltb,
  ◌≡◌, ◌⊎◌, inl, inr, refl, sym, ap, ◌∙◌, arith, get_or-set_ne, length-set, length-append,
  length-take, length-replicate, get_or-length,
}
use jmpxrds.Base.Int.{pos}
use jmpxrds.Config.Text.{strnlen}
use jmpxrds.Config.Texts.{strnlen-le}
use jmpxrds.Dynamic.Sanitize.{is_space, trim_end, skip_spaces, move_down, move_in_place, sanitize}
use jmpxrds.Dynamic.Trim.{strnlen-le-length, strnlen_end, get_or-move_down}
use jmpxrds.Dynamic.Radiotext.{Line, line_buffer, get_line, copy_segment}

pub strnlen-le_of_zero : (s : List ℕ) (m i : ℕ) → get_or s i 0 ≡ 0 → strnlen s m ≤ i
unfolding strnlen
strnlen-le_of_zero s zero i h = omega arith
strnlen-le_of_zero [] (suc m) i h = omega arith
strnlen-le_of_zero (c ∷ s) (suc m) zero h = ground (arith, h)
strnlen-le_of_zero (c ∷ s) (suc m) (suc i) h = ground (arith, strnlen-le_of_zero s m i h)

get_or-trim_end : (c : ℕ) (s : List ℕ) (i : ℕ) → c ≤ i → get_or (trim_end c s).1 i 0 ≡ get_or s i 0
unfolding trim_end
get_or-trim_end zero s i h = refl
get_or-trim_end (suc c) s i h = elim (Bool-cases (is_space (get_or s c 0))) [
  | inl e ↦
      rw (e, trim_end)
        (get_or-trim_end c (set s c 0) i (omega arith)
          ∙ get_or-set_ne s c i 0 0 (λ q. omega (arith, q)))
  | inr n ↦ rw (n, trim_end) refl
]

length-trim_end : (c : ℕ) (s : List ℕ) → length (trim_end c s).1 ≡ length s
unfolding trim_end
length-trim_end zero s = refl
length-trim_end (suc c) s = elim (Bool-cases (is_space (get_or s c 0))) [
  | inl e ↦ rw (e, trim_end) (length-trim_end c (set s c 0) ∙ length-set s c 0)
  | inr n ↦ rw (n, trim_end) refl
]

skip_spaces-le : (left : ℕ) (s : List ℕ) (off : ℕ) → skip_spaces left s off ≤ off + left
unfolding skip_spaces
skip_spaces-le zero s off = omega arith
skip_spaces-le (suc left) s off = ground (arith, skip_spaces-le left s (off + 1))

get_or-set_zero : (s : List ℕ) (i j : ℕ) → get_or s j 0 ≡ 0 → get_or (set s i 0) j 0 ≡ 0
get_or-set_zero [] i j h = h
get_or-set_zero (x ∷ s) zero zero h = refl
get_or-set_zero (x ∷ s) zero (suc j) h = h
get_or-set_zero (x ∷ s) (suc i) zero h = h
get_or-set_zero (x ∷ s) (suc i) (suc j) h = get_or-set_zero s i j h

move_in_place_end :
    (len off : ℕ) (s : List ℕ)
    → off ≤ len
    → len ≤ length s
    → get_or s len 0 ≡ 0
    → get_or (move_in_place len off s) len 0 ≡ 0
unfolding move_in_place
move_in_place_end len off s small fits h =
    ground
      (arith, h, moved, get_or-set_zero (move_down off (len - off) s) (len - off - 1) len moved)
  where
    moved : get_or (move_down off (len - off) s) len 0 ≡ 0
    moved = get_or-move_down off (len - off) s len (omega arith) ∙ ground (arith, h)

-- The result is no longer than the string was.
pub sanitize-le :
    (s : List ℕ) (max_len n : ℕ) → (sanitize s max_len).0 ≡ pos n → n ≤ strnlen s max_len
unfolding sanitize
sanitize-le s max_len n h = by_end (strnlen_end s max_len)
  where
    trimmed : List ℕ
    trimmed = (trim_end (strnlen s max_len) s).1

    moved : List ℕ
    moved =
        move_in_place (strnlen s max_len) (skip_spaces (strnlen s max_len - 1) trimmed 0) trimmed

    is_strnlen : n ≡ strnlen moved max_len
    is_strnlen = ground (arith, h)

    by_end :
        ((strnlen s max_len ≡ max_len) ⊎ (get_or s (strnlen s max_len) 0 ≡ 0))
        → n ≤ strnlen s max_len
    by_end (inl e) = omega (arith, is_strnlen, e, strnlen-le moved max_len)
    by_end (inr z) = omega (
      arith,
      is_strnlen,
      strnlen-le_of_zero moved max_len (strnlen s max_len) (
          move_in_place_end (strnlen s max_len) _ trimmed
            (omega (arith, skip_spaces-le (strnlen s max_len - 1) trimmed 0))
            (omega (arith, length-trim_end (strnlen s max_len) s, strnlen-le-length s max_len))
            (get_or-trim_end (strnlen s max_len) s (strnlen s max_len) (omega arith) ∙ z)),
    )

-- A line that is accepted has at most 64 bytes without the white space round it.
pub get_line-le : (l : Line) (n : ℕ) → (get_line l).0 ≡ pos n → n ≤ 64
unfolding get_line
get_line-le l n h = elim (Bool-cases (ltb 64 (length l.text))) [
  | inl long ↦ absurd (ground (arith, h, long))
  | inr short ↦
      let is_sanitized : get_line l ≡ sanitize (line_buffer l) (length (line_buffer l)) =
        rw short refl in
      omega (
        arith,
        short_text (ground (arith, short)),
        sanitize-le (line_buffer l) (length (line_buffer l)) n
            (ap (λ r. r.0) (sym is_sanitized) ∙ h),
      )
]
  where
    short_text : length l.text ≤ 64 → strnlen (line_buffer l) (length (line_buffer l)) ≤ 64
    short_text h = omega (
      arith,
      h,
      strnlen-le_of_zero (line_buffer l) (length (line_buffer l)) (length l.text)
          (get_or-length l.text (0 ∷ l.rest) 0),
    )

pub length-copy_segment : (n : ℕ) (res : List ℕ) → n ≤ 64 → length (copy_segment n res) ≡ 65
unfolding copy_segment
length-copy_segment n res h =
    length-append (take (strnlen res n) res) (replicate (65 - strnlen res n) 0)
    ∙ omega (
      arith,
      length-take (strnlen res n) res,
      strnlen-le-length res n,
      strnlen-le res n,
      length-replicate {A = ℕ} (65 - strnlen res n) 0,
    )
