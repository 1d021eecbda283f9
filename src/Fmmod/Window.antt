-- ===== src/Fmmod/Window.antt =====
-- filters.c: the window of the low-pass filter, over the periods that it is applied to.
use jmpxrds.Base.{
  ℕ, zero, suc, ◌+◌, ◌*◌, ◌%◌, ◌^◌, ◌≤◌, ◌<◌, List, [], ◌∷◌, ◌++◌, take, drop, length, All, ◌≡◌,
  refl, arith, ◌∙◌, ap, ap₂, sym, length-drop, take_all, length-append,
}
use native.Mathlib.Nat.{mod-eq_of_lt}
use mathlib.Core.List.{append_assoc, append-nil}
use jmpxrds.Fmmod.Oscilator.{Arith}
use jmpxrds.Fmmod.Filters.{Lpf, overlay, slide, lpf_filter_apply}

module _ {A : Type 0} where
  take_full : (n : ℕ) (xs : List A) → n ≡ length xs → take n xs ≡ xs
  take_full n xs e = ap (λ k. take k xs) e ∙ take_all xs

  drop_full : (n : ℕ) (xs : List A) → length xs ≤ n → drop n xs ≡ []
  drop_full zero [] h = refl
  drop_full zero (x ∷ xs) h = absurd (omega (arith, h))
  drop_full (suc n) [] h = refl
  drop_full (suc n) (x ∷ xs) h = drop_full n xs (omega (arith, h))

  drop_before : (n : ℕ) (xs ys : List A) → n ≤ length xs → drop n (xs ++ ys) ≡ drop n xs ++ ys
  drop_before zero xs ys h = refl
  drop_before (suc n) [] ys h = absurd (omega (arith, h))
  drop_before (suc n) (x ∷ xs) ys h = drop_before n xs ys (omega (arith, h))

  abbrev empty : List A
  empty = []

  drop_nil : (n : ℕ) → drop n (empty) ≡ []
  drop_nil zero = refl
  drop_nil (suc n) = refl

  drop-drop_add : (n m k : ℕ) (xs : List A) → n + m ≡ k → drop m (drop n xs) ≡ drop k xs
  drop-drop_add zero m k xs e = ap (λ i. drop i xs) same
    where
      same : m ≡ k
      same = omega (arith, e)
  drop-drop_add (suc n) m zero xs e = absurd (omega (arith, e))
  drop-drop_add (suc n) m (suc k) [] e = drop_nil m
  drop-drop_add (suc n) m (suc k) (x ∷ xs) e = drop-drop_add n m k xs (omega (arith, e))

  take_before : (n : ℕ) (xs ys : List A) → n ≡ length xs → take n (xs ++ ys) ≡ xs
  take_before zero [] ys h = refl
  take_before zero (x ∷ xs) ys h = absurd (omega (arith, h))
  take_before (suc n) [] ys h = absurd (omega (arith, h))
  take_before (suc n) (x ∷ xs) ys h = ap (λ ws. x ∷ ws) (take_before n xs ys (omega (arith, h)))

  -- Of a list of `o` and `p` elements the last `o` are moved to the front, and `p` new ones put behind.
  shifted :
      (o p : ℕ) (buf xs : List A)
      → length buf ≡ o + p
      → length xs ≡ p
      → overlay (overlay buf 0 (take o (drop p buf))) o xs ≡ drop p (buf ++ xs)
  shifted o p buf xs h e =
      let kept = drop p buf in
      let moved = kept ++ drop (0 + length kept) buf in
      let kept_length : length kept ≡ o = omega (arith, length-drop p buf, h) in
      let moved_length : length moved ≡ o + length (drop (0 + length kept) buf) =
        length-append kept _ ∙ ap (λ n. n + length (drop (0 + length kept) buf)) kept_length in
      ap (λ ys. overlay (ys ++ drop (0 + length ys) buf) o xs) (take_full o kept (sym kept_length))
      ∙ ap₂ (λ front back. front ++ (xs ++ back)) (take_before o kept _ (sym kept_length))
          (drop_full (o + length xs) moved
            (omega (arith, moved_length, length-drop (0 + length kept) buf, kept_length, h, e)))
      ∙ ap (λ ys. kept ++ ys) (append-nil xs)
      ∙ sym (drop_before p buf xs (omega (arith, h)))

module _ {A D : Type 0} (arith_of : Arith A D) where
  -- The filter after it was applied to some periods.
  abbrev pub applied : Lpf A → A → List (List A) → Lpf A
  applied lpf gain [] = lpf
  applied lpf gain (xs ∷ xss) =
      applied (lpf_filter_apply arith_of lpf xs (length xs) gain).0 gain xss

  abbrev pub concat : List (List A) → List A
  concat [] = []
  concat (xs ∷ xss) = xs ++ concat xss

  apply-window :
      (lpf : Lpf A) (xs : List A) (gain : A)
      → length lpf.real_in ≡ lpf.overlap_len + lpf.period_size
      → length xs ≡ lpf.period_size
      → lpf.period_size < 2 ^ 16
      → (lpf_filter_apply arith_of lpf xs (length xs) gain).0.real_in
        ≡ drop lpf.period_size (lpf.real_in ++ xs)
  unfolding lpf_filter_apply slide
  apply-window lpf xs gain h e fits =
      ap (λ ys. slide arith_of lpf ys)
        (take_full (length xs % 2 ^ 16) xs (mod-eq_of_lt (omega (arith, e, fits))))
      ∙ shifted lpf.overlap_len lpf.period_size lpf.real_in xs h e

  -- The window of a low-pass filter whose buffer has the length of its overlap and a period, after
  -- any number of periods of its size, below 65536: the last samples of all that was ever in it, so
  -- many as it holds, in their order, with none lost between two periods.
  pub applied-window :
      (lpf : Lpf A) (gain : A) (xss : List (List A))
      → length lpf.real_in ≡ lpf.overlap_len + lpf.period_size
      → All (λ xs. length xs ≡ lpf.period_size) xss
      → lpf.period_size < 2 ^ 16
      → (applied lpf gain xss).real_in
        ≡ drop (length xss * lpf.period_size) (lpf.real_in ++ concat xss)
  unfolding lpf_filter_apply
  applied-window lpf gain [] h v fits =
      sym (ap (λ n. drop n (lpf.real_in ++ [])) none_left ∙ append-nil lpf.real_in)
    where
      none_left : 0 * lpf.period_size ≡ 0
      none_left = omega arith
  applied-window lpf gain (xs ∷ xss) h v fits =
      applied-window (lpf_filter_apply arith_of lpf xs (length xs) gain).0 gain xss
        (ap length first ∙ same_length) v.1 fits
      ∙ ap (λ ys. drop (length xss * lpf.period_size) (ys ++ concat xss)) first
      ∙ ap (λ ys. drop (length xss * lpf.period_size) ys)
          (sym (drop_before lpf.period_size (lpf.real_in ++ xs) (concat xss) long_enough))
      ∙ drop-drop_add lpf.period_size (length xss * lpf.period_size)
          (suc (length xss) * lpf.period_size) _ one_more
      ∙ ap (λ ys. drop (suc (length xss) * lpf.period_size) ys)
          (append_assoc lpf.real_in xs (concat xss))
    where
      first :
          (lpf_filter_apply arith_of lpf xs (length xs) gain).0.real_in
          ≡ drop lpf.period_size (lpf.real_in ++ xs)
      first = apply-window lpf xs gain h v.0 fits

      same_length :
          length (drop lpf.period_size (lpf.real_in ++ xs)) ≡ lpf.overlap_len + lpf.period_size
      same_length = omega (
        arith,
        length-drop lpf.period_size (lpf.real_in ++ xs),
        length-append lpf.real_in xs,
        h,
        v.0,
      )

      long_enough : lpf.period_size ≤ length (lpf.real_in ++ xs)
      long_enough = omega (arith, length-append lpf.real_in xs, h)

      one_more : lpf.period_size + length xss * lpf.period_size ≡ suc (length xss) * lpf.period_size
      one_more = ground arith
