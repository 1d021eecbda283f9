-- ===== src/Dynamic/Clean.antt =====
-- What `rds_string_sanitize` leaves of a string.
use jmpxrds.Base.{
  ℕ, ◌+◌, ◌-◌, ◌<◌, ◌≤◌, List, get_or, set, take, drop, length, Bool-cases, true, false, ◌&&◌, not,
  ◌==◌, ltb, if◌then◌else◌, ◌≡◌, ◌⊎◌, inl, inr, refl, sym, subst, ap, ◌∙◌, arith, get_or-set_self,
  get_or-set_ne, length-drop, length-take, length-append,
}
use jmpxrds.Base.Int.{pos, minus}
use jmpxrds.Config.Text.{strnlen}
use jmpxrds.Config.Texts.{strnlen-le}
use jmpxrds.Dynamic.Trim.{
  strnlen-ne, strnlen-le-length, strnlen_end, strnlen_of, Trimmed, AllSpaces, trim_end-Trimmed,
  skip_spaces-eq, get_or-move_down,
}
use jmpxrds.Dynamic.Sanitize.{is_space, trim_end, skip_spaces, move_down, move_in_place, sanitize}

-- A text of `len` bytes without its spaces is what stands from `b` to `k`.
pub record IsText (s : List ℕ) (len b k : ℕ) : Type 0 where
  pub some_text : b < k
  pub within : k ≤ len
  pub before : AllSpaces s 0 b
  pub first : is_space (get_or s b 0) ≡ false
  pub last : is_space (get_or s (k - 1) 0) ≡ false
  pub after : AllSpaces s k len

-- How many bytes stay: all of them, but the last is lost if there are spaces before and none after.
abbrev pub left_over : ℕ → ℕ → ℕ → ℕ
left_over len b k = if not (b == 0) && k == len then k - b - 1 else k - b

module _ (s : List ℕ) (max_len b k : ℕ) (v : IsText s (strnlen s max_len) b k) where
  abbrev len : ℕ
  len = strnlen s max_len

  abbrev trimmed : List ℕ
  trimmed = (trim_end len s).1

  trim : Trimmed s len k (trim_end len s)
  trim = trim_end-Trimmed len s k v.within (strnlen-le-length s max_len) v.after (inr v.last)

  skipped : skip_spaces (len - 1) trimmed 0 ≡ b
  skipped =
      skip_spaces-eq (len - 1) trimmed 0 b (omega arith) (omega (arith, v.some_text, v.within))
        (λ i x y. ap is_space (trim.kept i (omega (arith, v.some_text))) ∙ v.before i x y)
        (ap is_space (trim.kept b v.some_text) ∙ v.first)

  -- What the string has to be in the end.
  record Left' (n : ℕ) (r : List ℕ) : Type 0 where
    text : (i : ℕ) → i < n → get_or r i 0 ≡ get_or s (b + i) 0
    ends : (n ≡ max_len) ⊎ (get_or r n 0 ≡ 0)

  abbrev Left : List ℕ → Type 0
  Left = Left' (left_over len b k)

  fits : len ≤ length trimmed
  fits = omega (arith, trim.same_length, strnlen-le-length s max_len)

  ends_trimmed : (k ≡ max_len) ⊎ (get_or trimmed k 0 ≡ 0)
  ends_trimmed = elim (Bool-cases (k == len)) [
    | inl e ↦ at_end (ground (arith, e)) (strnlen_end s max_len)
    | inr n ↦ inr (trim.cleared k (omega arith) (ground (arith, n, v.within)))
  ]
    where
      at_end :
          k ≡ len
          → ((len ≡ max_len) ⊎ (get_or s len 0 ≡ 0))
          → (k ≡ max_len) ⊎ (get_or trimmed k 0 ≡ 0)
      at_end e (inl m) = inl (e ∙ m)
      at_end e (inr z) = inr (trim.beyond k (omega (arith, e)) ∙ ap (λ (j : ℕ). get_or s j 0) e ∙ z)

  Left-start : b ≡ 0 → Left trimmed
  Left-start e =
      subst (λ n. Left' n trimmed) (ground (arith, e))
        (record {
          text = λ i h. trim.kept i h ∙ ap (λ (j : ℕ). get_or s j 0) (omega (arith, e));
          ends = ends_trimmed;
        })

  last_byte : 0 < b → is_space (get_or (move_down b (len - b) trimmed) (len - 1) 0) ≡ false
  unfolding is_space
  last_byte h =
      ap is_space (
        get_or-move_down b (len - b) trimmed (len - 1) (omega (arith, fits, v.some_text, v.within))
        ∙ not_moved)
      ∙ not_space (Bool-cases (k == len))
    where
      not_moved :
          (if ltb (len - 1) (len - b)
            then get_or trimmed (b + (len - 1)) 0
            else get_or trimmed (len - 1) 0)
          ≡ get_or trimmed (len - 1) 0
      not_moved = ground (arith, v.some_text, v.within)

      not_space :
          ((k == len) ≡ true) ⊎ ((k == len) ≡ false) → is_space (get_or trimmed (len - 1) 0) ≡ false
      not_space (inl e) =
          ap is_space (
            trim.kept (len - 1) (ground (arith, e, v.some_text))
            ∙ ap (λ (j : ℕ). get_or s (j - 1) 0) (ground (arith, e)))
          ∙ v.last
      not_space (inr n) = ap is_space (
          trim.cleared (len - 1) (ground (arith, n, v.within))
            (omega (arith, v.some_text, v.within)))

  moved : List ℕ
  moved = move_down b (len - b) trimmed

  moved_at : (i : ℕ) → i < len - b → get_or moved i 0 ≡ get_or trimmed (b + i) 0
  unfolding moved
  moved_at i h =
      get_or-move_down b (len - b) trimmed i (omega (arith, fits, v.some_text, v.within))
      ∙ ground (arith, h)

  length-moved : len - b ≤ length moved
  unfolding moved
  length-moved = omega (
    arith,
    fits,
    length-append (take (len - b) (drop b trimmed)) (drop (len - b) trimmed),
    length-take (len - b) (drop b trimmed),
    length-drop b trimmed,
  )

  Left-moved : 0 < b → Left (set moved (len - b - 1) 0)
  Left-moved h = record {
    text = λ i g.
        get_or-set_ne moved (len - b - 1) i 0 0
          (λ e. ground (arith, e, g, h, v.some_text, v.within))
        ∙ moved_at i (ground (arith, g, h, v.some_text, v.within))
        ∙ trim.kept (b + i) (ground (arith, g, h, v.some_text, v.within));
    ends = inr (ended (Bool-cases (k == len)));
  }
    where
      ended :
          ((k == len) ≡ true) ⊎ ((k == len) ≡ false)
          → get_or (set moved (len - b - 1) 0) (left_over len b k) 0 ≡ 0
      ended (inl e) =
          ap (λ (j : ℕ). get_or (set moved (len - b - 1) 0) j 0) (ground (arith, e, h))
          ∙ get_or-set_self moved (len - b - 1) 0 0
              (omega (arith, length-moved, v.some_text, v.within))
      ended (inr n) =
          ap (λ (j : ℕ). get_or (set moved (len - b - 1) 0) j 0) (ground (arith, n))
          ∙ at_end (Bool-cases (k - b == len - b - 1))
        where
          at_end :
              ((k - b == len - b - 1) ≡ true) ⊎ ((k - b == len - b - 1) ≡ false)
              → get_or (set moved (len - b - 1) 0) (k - b) 0 ≡ 0
          at_end (inl e) =
              ap (λ (j : ℕ). get_or (set moved (len - b - 1) 0) j 0) (ground (arith, e))
              ∙ get_or-set_self moved (len - b - 1) 0 0
                  (omega (arith, length-moved, v.some_text, v.within))
          at_end (inr e) =
              get_or-set_ne moved (len - b - 1) (k - b) 0 0 (λ q. ground (arith, e, q))
              ∙ moved_at (k - b) (ground (arith, n, v.some_text, v.within))
              ∙ trim.cleared (b + (k - b)) (omega (arith, v.some_text))
                  (ground (arith, n, v.some_text, v.within))

  move_in_place-start : b ≡ 0 → move_in_place len b trimmed ≡ trimmed
  unfolding move_in_place
  move_in_place-start e = let is_start : (b == 0) ≡ true = ground (arith, e) in rw is_start refl

  move_in_place-moved : 0 < b → move_in_place len b trimmed ≡ set moved (len - b - 1) 0
  unfolding move_in_place moved
  move_in_place-moved h =
      let some_spaces : (b == 0) ≡ false = ground (arith, h) in rw (some_spaces, last_byte h)

  Left-move_in_place : ((b == 0) ≡ true) ⊎ ((b == 0) ≡ false) → Left (move_in_place len b trimmed)
  Left-move_in_place (inl e) =
      subst Left (sym (move_in_place-start (ground (arith, e)))) (Left-start (ground (arith, e)))
  Left-move_in_place (inr n) =
      subst Left (sym (move_in_place-moved (ground (arith, n)))) (Left-moved (ground (arith, n)))

  strnlen-Left : (r : List ℕ) → Left r → strnlen r max_len ≡ left_over len b k
  strnlen-Left r l =
      strnlen_of r max_len (left_over len b k) (ground (arith, strnlen-le s max_len, v.within))
        (λ i h e. strnlen-ne s max_len (b + i) (ground (arith, h, v.within)) (sym (l.text i h) ∙ e))
        l.ends

  sanitize-eq :
      1 < k
      → sanitize s max_len
        ≡ (pos (strnlen (move_in_place len b trimmed) max_len), move_in_place len b trimmed)
  unfolding sanitize
  sanitize-eq many =
      let some_text : (len == 0) ≡ false = ground (arith, v.within, v.some_text) in
      let not_one : (k == 1) ≡ false = ground (arith, many) in
      rw (some_text, trim.stays, not_one, skipped)

  sanitize_lone : k ≡ 1 → sanitize s max_len ≡ (minus 2, trimmed)
  unfolding sanitize
  sanitize_lone one =
      let some_text : (len == 0) ≡ false = ground (arith, v.within, v.some_text) in
      let is_one : (k == 1) ≡ true = ground (arith, one) in rw (some_text, trim.stays, is_one) refl

-- A string of which the bytes from `b` to `k` stay without the white space before and after them:
-- `rds_string_sanitize` returns how many bytes stay, and these stand at the start of the string, in
-- order. All of them stay, but where there is white space before them and none after, the last one
-- is lost. Where `k` is 1, a first character alone, it returns -2.
pub sanitize-keeps :
    (s : List ℕ) (max_len b k : ℕ)
    → IsText s (strnlen s max_len) b k
    → let n = left_over (strnlen s max_len) b k in
      ((sanitize s max_len).0 ≡ (if k == 1 then minus 2 else pos n))
      × ((i : ℕ) → i < n → get_or (sanitize s max_len).1 i 0 ≡ get_or s (b + i) 0)
sanitize-keeps s max_len b k v = elim (Bool-cases (k == 1)) [
  | inl one ↦
      let start : b ≡ 0 = ground (arith, one, v.some_text) in
      rw (sanitize_lone s max_len b k v (ground (arith, one)), one)
        (refl, λ i h. (Left-start s max_len b k v start).text i h)
  | inr many ↦
      let kept = Left-move_in_place s max_len b k v (Bool-cases (b == 0)) in
      rw (sanitize-eq s max_len b k v (ground (arith, many, v.some_text)), many)
        (ap pos (strnlen-Left s max_len b k v _ kept), λ i h. kept.text i h)
]

module _ (s : List ℕ) (max_len : ℕ) (some_text : 0 < strnlen s max_len)
    (spaces : AllSpaces s 0 (strnlen s max_len)) where
  blanked : List ℕ
  blanked = (trim_end (strnlen s max_len) s).1

  trim_blank : Trimmed s (strnlen s max_len) 0 (trim_end (strnlen s max_len) s)
  trim_blank =
      trim_end-Trimmed (strnlen s max_len) s 0 (omega arith) (strnlen-le-length s max_len) spaces
        (inl refl)

  skipped_blank : skip_spaces (strnlen s max_len - 1) blanked 0 ≡ 0
  unfolding is_space blanked
  skipped_blank =
      skip_spaces-eq (strnlen s max_len - 1) blanked 0 0 (omega arith) (omega arith)
        (λ i x y. absurd (omega (arith, y)))
        (ap is_space (trim_blank.cleared 0 (omega arith) some_text))

  strnlen-blanked : strnlen blanked max_len ≡ 0
  unfolding blanked
  strnlen-blanked =
      strnlen_of blanked max_len 0 (omega arith) (λ i h. absurd (omega (arith, h)))
        (inr (trim_blank.cleared 0 (omega arith) some_text))

  -- A string of white space alone is not refused: the result is an empty string, of length 0.
  pub sanitize-blank :
      ((sanitize s max_len).0 ≡ pos 0) × (strnlen (sanitize s max_len).1 max_len ≡ 0)
  unfolding sanitize move_in_place blanked
  sanitize-blank =
      let is_some : (strnlen s max_len == 0) ≡ false = ground (arith, some_text) in
      rw (is_some, trim_blank.stays, skipped_blank) (ap pos strnlen-blanked, strnlen-blanked)
