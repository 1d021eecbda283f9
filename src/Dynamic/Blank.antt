-- ===== src/Dynamic/Blank.antt =====
-- What a blank line in the file of the dynamic RadioText does.
use jmpxrds.Base.{
  ℕ, zero, suc, ◌+◌, ◌<◌, ◌≤◌, List, [], ◌∷◌, some, true, false, get_or, set, length, replicate,
  ◌==◌, ltb, ◌≡◌, ◌≢◌, ◌⊎◌, inl, inr, refl, sym, ap, ◌∙◌, arith, get_or-set_self, get_or-set_ne,
  length-append, get_or-append, get_or-length,
}
use jmpxrds.Base.Int.{pos, negsuc, ℤ-cases}
use jmpxrds.Config.State.{State}
use jmpxrds.Config.Text.{strnlen}
use jmpxrds.Config.Segments.{set_rt-stored}
use jmpxrds.Dynamic.Sanitize.{is_space}
use jmpxrds.Dynamic.Trim.{AllSpaces, strnlen_of}
use jmpxrds.Dynamic.Clean.{sanitize-blank}
use jmpxrds.Dynamic.Radiotext.{
  DynRt, Line, line_buffer, get_line, copy_segment, read_segments, filemon_pass, rotate_pass,
  next_segment,
}

-- A line of 1 to 64 bytes, white space alone.
pub record IsBlank (l : Line) : Type 0 where
  pub some_text : 0 < length l.text
  pub short : length l.text ≤ 64
  pub spaces : AllSpaces l.text 0 (length l.text)

module _ (l : Line) (v : IsBlank l) where
  here : (i : ℕ) → i < length l.text → get_or (line_buffer l) i 0 ≡ get_or l.text i 0
  here i h = get_or-append l.text (0 ∷ l.rest) i 0 h

  space-ne : (c : ℕ) → is_space c ≡ true → c ≢ 0
  unfolding is_space
  space-ne c h e = ground (arith, h, e)

  strnlen-blank : strnlen (line_buffer l) (length (line_buffer l)) ≡ length l.text
  strnlen-blank =
      strnlen_of (line_buffer l) (length (line_buffer l)) (length l.text)
        (omega (arith, length-append l.text (0 ∷ l.rest)))
        (λ i h e. space-ne (get_or l.text i 0) (v.spaces i (omega arith) h) (sym (here i h) ∙ e))
        (inr (get_or-length l.text (0 ∷ l.rest) 0))

  get_line-blank : (get_line l).0 ≡ pos 0
  unfolding get_line
  get_line-blank =
      let fits : ltb 64 (length l.text) ≡ false = ground (arith, v.short) in
      rw fits
        (sanitize-blank (line_buffer l) (length (line_buffer l))
          (omega (arith, strnlen-blank, v.some_text))
          (λ i x y.
            ap is_space (here i (omega (arith, y, strnlen-blank)))
            ∙ v.spaces i x (omega (arith, y, strnlen-blank)))).0

-- The lines that are read later leave the segments that are there.
read_segments-keeps :
    (left : ℕ) (lines : List Line) (drt : DynRt) (i : ℕ)
    → i < drt.num_segments
    → (get_or (read_segments left lines drt).rt_segments i [] ≡ get_or drt.rt_segments i [])
      × (drt.num_segments ≤ (read_segments left lines drt).num_segments)
      × ((read_segments left lines drt).curr_segment ≡ drt.curr_segment)
unfolding read_segments
read_segments-keeps zero lines drt i h = (refl, omega arith, refl)
read_segments-keeps (suc left) [] drt i h = (refl, omega arith, refl)
read_segments-keeps (suc left) (l ∷ lines) drt i h = by_result (ℤ-cases (get_line l).0) (λ n.
    read_segments-keeps left lines
      (record drt {
        rt_segments = set drt.rt_segments drt.num_segments (copy_segment n (get_line l).1);
        num_segments = drt.num_segments + 1;
      })
      i (omega arith))
  where
    Kept : DynRt → DynRt → Type 0
    Kept a b =
        (get_or b.rt_segments i [] ≡ get_or a.rt_segments i [])
        × (a.num_segments ≤ b.num_segments)
        × (b.curr_segment ≡ a.curr_segment)

    by_result :
        ((n : ℕ) × ((get_line l).0 ≡ pos n)) ⊎ ((n : ℕ) × ((get_line l).0 ≡ negsuc n))
        → ((n : ℕ)
            → let drt' : DynRt = record drt {
              rt_segments = set drt.rt_segments drt.num_segments (copy_segment n (get_line l).1);
              num_segments = drt.num_segments + 1;
            } in
              Kept drt' (read_segments left lines drt'))
        → Kept drt (read_segments (suc left) (l ∷ lines) drt)
    by_result (inl (n, e)) rest =
        rw (e, read_segments)
          (
            (rest n).0
                ∙ get_or-set_ne drt.rt_segments drt.num_segments i (copy_segment n (get_line l).1)
                    [] (λ q. omega (arith, q, h)),
            omega (arith, (rest n).1),
            (rest n).2,
          )
    by_result (inr (n, e)) rest = rw (e, read_segments) (refl, omega arith, refl)

abbrev read_first : Line → DynRt → DynRt
read_first l drt = record drt {
  rt_segments = set drt.rt_segments 0 (copy_segment 0 (get_line l).1);
  num_segments = 0 + 1;
}

read_segments-first :
    (l : Line) (lines : List Line) (drt : DynRt)
    → IsBlank l
    → read_segments 3 (l ∷ lines) (record drt { num_segments = 0 })
      ≡ read_segments 2 lines (read_first l drt)
unfolding read_segments
read_segments-first l lines drt v = rw (get_line-blank l v, read_segments) refl

strnlen-copy_none : (res : List ℕ) → strnlen (copy_segment 0 res) 64 ≡ 0
unfolding copy_segment strnlen
strnlen-copy_none res = refl

rotate_pass-empty :
    (drt : DynRt) (st : State)
    → 0 < drt.num_segments
    → strnlen (get_or drt.rt_segments (next_segment drt) []) 64 ≡ 0
    → (rotate_pass drt (some st)).1 ≡ some (record st { rt_set = 0; rt = replicate 64 0 })
unfolding rotate_pass
rotate_pass-empty drt st h e =
    let some_here : (drt.num_segments == 0) ≡ false = ground (arith, h) in
    rw some_here (
      ap (λ r. r.0) (set_rt-stored st (get_or drt.rt_segments (next_segment drt) []) true)
      ∙ rw e refl)

-- A file that starts with a blank line is read, and the consumer comes to the first segment: then
-- the RadioText is switched off, whatever the other lines are.
pub rotate_pass-blank :
    (l : Line) (lines : List Line) (drt : DynRt) (st : State)
    → IsBlank l
    → 0 < length drt.rt_segments
    → drt.curr_segment ≡ 0
    → let (drt', st') = filemon_pass (some (l ∷ lines)) drt (some st) in
      (rotate_pass drt' st').1 ≡ some (record st { rt_set = 0; rt = replicate 64 0 })
unfolding filemon_pass
rotate_pass-blank l lines drt st v fits start =
    rw (read_segments-first l lines drt v, is_some)
      (rotate_pass-empty later st (omega (arith, kept.1)) (
        ap (λ (i : ℕ). strnlen (get_or later.rt_segments i []) 64) (ground (arith, kept.2, start))
        ∙ ap (λ s. strnlen s 64)
            (kept.0 ∙ get_or-set_self drt.rt_segments 0 (copy_segment 0 (get_line l).1) [] fits)
        ∙ strnlen-copy_none (get_line l).1))
  where
    later : DynRt
    later = read_segments 2 lines (read_first l drt)

    kept :
        (get_or later.rt_segments 0 [] ≡ get_or (read_first l drt).rt_segments 0 [])
        × (0 + 1 ≤ later.num_segments)
        × (later.curr_segment ≡ drt.curr_segment)
    kept = read_segments-keeps 2 lines (read_first l drt) 0 (omega arith)

    is_some : (later.num_segments == 0) ≡ false
    is_some = ground (arith, kept.1)
