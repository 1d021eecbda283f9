-- ===== src/Fmmod/FilterLife.antt =====
-- filters.c: the initialisation and the end of the low-pass filter and of the Hilbert transformer. What
-- FFTW allocates and plans is an argument.
use jmpxrds.Base.{ℕ, ◌+◌, ◌*◌, ◌/◌, ◌%◌, ◌^◌, List, [], ◌∷◌, Bool, not, ◌||◌, ◌==◌, if◌then◌else◌}
use jmpxrds.Base.Int.{ℤ, pos, minus, is_neg}
use jmpxrds.Resource.{Pointer, null, live, give_back}

-- The pointers of `struct lpf_filter_data`.
pub record LpfSlots : Type 0 where
  pub filter_resp : Pointer
  pub real_in : Pointer
  pub real_out : Pointer
  pub complex_buff : Pointer
  pub dft_plan : Pointer
  pub ift_plan : Pointer

-- Its numbers.
pub record LpfSizes : Type 0 where
  pub period_size : ℕ
  pub num_bins : ℕ
  pub middle_bin : ℕ
  pub overlap_len : ℕ

pub record LpfAnswers : Type 0 where
  pub real_in : Bool
  pub real_out : Bool
  pub complex_buff : Bool
  pub filter_resp : Bool
  pub dft_plan : Bool
  pub ift_plan : Bool

abbrev pub lpf_slots : LpfSlots → List Pointer
lpf_slots f = f.filter_resp ∷ f.real_in ∷ f.real_out ∷ f.complex_buff ∷ f.dft_plan ∷ f.ift_plan ∷ []

abbrev pub no_lpf : LpfSlots
no_lpf = record {
  filter_resp = null;
  real_in = null;
  real_out = null;
  complex_buff = null;
  dft_plan = null;
  ift_plan = null;
}

abbrev pub lpf_filter_destroy : LpfSlots → LpfSlots
lpf_filter_destroy f = record {
  filter_resp = give_back f.filter_resp;
  real_in = give_back f.real_in;
  real_out = give_back f.real_out;
  complex_buff = give_back f.complex_buff;
  dft_plan = give_back f.dft_plan;
  ift_plan = give_back f.ift_plan;
}

-- The sizes, in fields of 16 bits, from parameters of 16 and of 8 bits.
unfoldable pub lpf_sizes : (max_frames overlap_factor : ℕ) → LpfSizes
lpf_sizes max_frames overlap_factor =
    let period = max_frames % 2 ^ 16 in
    let factor = overlap_factor % 2 ^ 8 in
    let bins = (factor + 1) * period % 2 ^ 16 in
    record {
      period_size = period;
      num_bins = bins;
      middle_bin = (bins / 2 + 1) % 2 ^ 16;
      overlap_len = factor * period % 2 ^ 16;
    }

abbrev pub fail_lpf : LpfSlots → ℕ → LpfSlots × ℤ
fail_lpf f n = (lpf_filter_destroy f, minus n)

-- Of a zeroed structure.
unfoldable pub lpf_filter_init : LpfAnswers → LpfSlots × ℤ
lpf_filter_init a =
    let f1 = record no_lpf { real_in = live } in
    let f2 = record f1 { real_out = live } in
    let f3 = record f2 { complex_buff = live } in
    let f4 = record f3 { filter_resp = live } in
    let f5 = record f4 { dft_plan = live } in
    if not a.real_in
    then fail_lpf no_lpf 2
    else if not a.real_out
    then fail_lpf f1 3
    else if not a.complex_buff
    then fail_lpf f2 4
    else if not a.filter_resp
    then fail_lpf f3 4
    else if not a.dft_plan
    then fail_lpf f4 5
    else if not a.ift_plan
    then fail_lpf f5 6
    else (record f5 { ift_plan = live }, pos 0)

-- The pointers of `struct hilbert_transformer_data`.
pub record HilbertSlots : Type 0 where
  pub complex_buff : Pointer
  pub real_buff : Pointer
  pub dft_plan : Pointer
  pub ift_plan : Pointer

pub record HilbertAnswers : Type 0 where
  pub real_buff : Bool
  pub complex_buff : Bool
  pub dft_plan : Bool
  pub ift_plan : Bool

abbrev pub hilbert_slots : HilbertSlots → List Pointer
hilbert_slots h = h.complex_buff ∷ h.real_buff ∷ h.dft_plan ∷ h.ift_plan ∷ []

abbrev pub no_hilbert : HilbertSlots
no_hilbert = record { complex_buff = null; real_buff = null; dft_plan = null; ift_plan = null }

abbrev pub hilbert_transformer_destroy : HilbertSlots → HilbertSlots
hilbert_transformer_destroy h = record {
  complex_buff = give_back h.complex_buff;
  real_buff = give_back h.real_buff;
  dft_plan = give_back h.dft_plan;
  ift_plan = give_back h.ift_plan;
}

abbrev pub fail_hilbert : HilbertSlots → ℕ → HilbertSlots × ℤ
fail_hilbert h n = (hilbert_transformer_destroy h, minus n)

unfoldable pub hilbert_transformer_init : HilbertAnswers → HilbertSlots × ℤ
hilbert_transformer_init a =
    let h1 = record no_hilbert { real_buff = live } in
    let h2 = record h1 { complex_buff = live } in
    let h3 = record h2 { dft_plan = live } in
    if not a.real_buff
    then fail_hilbert no_hilbert 1
    else if not a.complex_buff
    then fail_hilbert h1 2
    else if not a.dft_plan
    then fail_hilbert h2 3
    else if not a.ift_plan
    then fail_hilbert h3 4
    else (record h3 { ift_plan = live }, pos 0)

-- The code of `fmpreemph_filter_init_mode` by the time constant, and of `fmpreemph_filter_init`; the
-- taps are computed in floating point.
abbrev pub preemph_mode_code : ℕ → ℤ
preemph_mode_code usecs = if (usecs == 50) || (usecs == 75) then pos 0 else minus 1

abbrev pub preemph_code : ℤ
preemph_code = if is_neg (preemph_mode_code 50) then preemph_mode_code 50 else preemph_mode_code 75
