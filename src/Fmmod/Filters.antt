-- ===== src/Fmmod/Filters.antt =====
-- filters.c: `lpf_filter_apply`, `hilbert_transformer_apply` and `fmpreemph_filter_apply`. What a plan
-- of FFTW computes is an argument.
use jmpxrds.Base.{
  ℕ, zero, suc, ◌+◌, ◌/◌, ◌%◌, ◌^◌, List, [], ◌∷◌, ◌++◌, map, take, drop, replicate, length, Bool,
  true, false, not, if◌then◌else◌,
}
use jmpxrds.Fmmod.Oscilator.{Arith}

-- The plans of a filter: from the samples, and the bins as they were, to the bins, and back.
pub record Plans (A : Type 0) : Type 0 where
  pub dft : List A → List (A × A) → List (A × A)
  pub ift : List (A × A) → List A

-- `struct lpf_filter_data`.
pub record Lpf (A : Type 0) : Type 0 where
  pub period_size : ℕ
  pub num_bins : ℕ
  pub middle_bin : ℕ
  pub overlap_len : ℕ
  pub filter_resp : List (A × A)
  pub complex_buff : List (A × A)
  pub real_in : List A
  pub plans : Plans A

-- `struct hilbert_transformer_data`.
pub record Hilbert (A : Type 0) : Type 0 where
  pub num_bins : ℕ
  pub complex_buff : List (A × A)
  pub real_buff : List A
  pub plans : Plans A

-- `struct fmpreemph_filter_data`.
pub record Preemph (A : Type 0) : Type 0 where
  pub last_in : A
  pub last_out : A × A
  pub ataps_50 : A × A
  pub btaps_50 : A × A
  pub ataps_75 : A × A
  pub btaps_75 : A × A

pub data PreemphMode : Type 0 where
  us50 : PreemphMode
  us75 : PreemphMode
  no_preemph : PreemphMode

abbrev pub same_mode : PreemphMode → PreemphMode → Bool
same_mode us50 us50 = true
same_mode us75 us75 = true
same_mode no_preemph no_preemph = true
same_mode us50 us75 = false
same_mode us50 no_preemph = false
same_mode us75 us50 = false
same_mode us75 no_preemph = false
same_mode no_preemph us50 = false
same_mode no_preemph us75 = false

-- `memcpy(buf + off, xs, ...)` of all of `xs`.
abbrev pub overlay {ℓ} : {A : Type ℓ} → List A → ℕ → List A → List A
overlay buf off xs = take off buf ++ (xs ++ drop (off + length xs) buf)

module _ {A D : Type 0} (arith : Arith A D) where
  abbrev pub times_complex : A × A → A × A → A × A
  times_complex (a, b) (c, d) = (
    arith.plus (arith.times a c) (arith.negated (arith.times b d)),
    arith.plus (arith.times a d) (arith.times b c),
  )

  -- The first `n` bins, each multiplied by the response.
  unfoldable pub respond : ℕ → List (A × A) → List (A × A) → List (A × A)
  respond zero resp bins = bins
  respond (suc n) [] bins = bins
  respond (suc n) (r ∷ resp) [] = []
  respond (suc n) (r ∷ resp) (b ∷ bins) = times_complex r b ∷ respond n resp bins

  -- The window after a new period: the old one moved down, and the new samples behind the overlap.
  unfoldable pub slide : Lpf A → List A → List A
  slide lpf xs =
      let moved = overlay lpf.real_in 0 (take lpf.overlap_len (drop lpf.period_size lpf.real_in)) in
      overlay moved lpf.overlap_len xs

  -- The filter and what it writes to `out`, of at most 65535 samples; the subtraction of the source
  -- is the sum with a negated product.
  unfoldable pub lpf_filter_apply : Lpf A → List A → ℕ → A → Lpf A × List A
  unfolding slide respond
  lpf_filter_apply lpf xs num_samples gain =
      let n = num_samples % 2 ^ 16 in
      let real_in = slide lpf (take n xs) in
      let bins = respond lpf.middle_bin lpf.filter_resp (lpf.plans.dft real_in lpf.complex_buff) in
      let ratio = arith.over gain lpf.num_bins in
      (
        record lpf { real_in = real_in; complex_buff = bins },
        map (λ x. arith.times x ratio) (take n (lpf.plans.ift bins)),
      )

  -- The bins before the middle, the middle one, and those behind it.
  unfoldable pub rotate_bins : ℕ → List (A × A) → List (A × A)
  rotate_bins middle [] = []
  rotate_bins zero (b ∷ bins) =
      (arith.literal 0, arith.literal 0) ∷ map (λ (c : A × A). (c.1, arith.negated c.0)) bins
  rotate_bins (suc middle) (b ∷ bins) = (arith.negated b.1, b.0) ∷ rotate_bins middle bins

  unfoldable pub hilbert_transformer_apply : Hilbert A → List A → ℕ → Hilbert A
  unfolding rotate_bins
  hilbert_transformer_apply ht xs num_samples =
      let n = num_samples % 2 ^ 16 in
      let filled = overlay (replicate ht.num_bins (arith.literal 0)) 0 (take n xs) in
      let bins = rotate_bins ((ht.num_bins + 1) / 2) (ht.plans.dft filled ht.complex_buff) in
      let back = ht.plans.ift bins in
      record ht {
        complex_buff = bins;
        real_buff =
            overlay back 0
              (map (λ x. arith.times x (arith.over (arith.literal 10) ht.num_bins)) (take n back));
      }

  abbrev pub taps : PreemphMode → Preemph A → (A × A) × (A × A)
  taps us75 f = (f.ataps_75, f.btaps_75)
  taps us50 f = (f.ataps_50, f.btaps_50)
  taps no_preemph f = (f.ataps_50, f.btaps_50)

  -- Once there is a mode: the result, the filter and the mode of the last call, which is one static
  -- variable for all filters.
  unfoldable pub emphasise : Preemph A → A → PreemphMode → PreemphMode → A × Preemph A × PreemphMode
  emphasise f x mode prev =
      let (ataps, btaps) = taps mode f in
      let first = arith.plus (arith.literal 0) (arith.times ataps.0 x) in
      let second = arith.plus first (arith.times ataps.1 f.last_in) in
      let third = arith.plus second (arith.times btaps.0 f.last_out.0) in
      let out = arith.plus third (arith.times btaps.1 f.last_out.1) in
      if not (same_mode prev mode)
      then (first, record f { last_in = x; last_out = (first, f.last_out.1) }, mode)
      else (
        arith.times out (arith.literal 80),
        record f { last_in = x; last_out = (out, f.last_out.0) },
        mode,
      )

  unfoldable pub fmpreemph_filter_apply :
      Preemph A → A → PreemphMode → PreemphMode → A × Preemph A × PreemphMode
  unfolding emphasise
  fmpreemph_filter_apply f x no_preemph prev = (x, f, prev)
  fmpreemph_filter_apply f x us75 prev = emphasise f x us75 prev
  fmpreemph_filter_apply f x us50 prev = emphasise f x us50 prev
