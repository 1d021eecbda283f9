-- ===== src/Fmmod/Parts.antt =====
-- fmmod.c: what an instance of the modulator holds: `fmmod_connect`, `fmmod_init_buffers`,
-- `fmmod_init_filters` and the functions that give the parts back.
use jmpxrds.Base.{ℕ, ◌-◌, ◌*◌, ◌/◌, max, List, [], ◌∷◌, ◌++◌, Bool, not, if◌then◌else◌}
use jmpxrds.Base.Int.{ℤ, pos, minus, is_neg}
use jmpxrds.Resource.{Pointer, null, live, give_back}
use jmpxrds.Fmmod.FilterLife.{
  LpfSlots, LpfAnswers, lpf_slots, no_lpf, lpf_filter_init, lpf_filter_destroy, HilbertSlots,
  HilbertAnswers, hilbert_slots, no_hilbert, hilbert_transformer_init, hilbert_transformer_destroy,
  preemph_code,
}

-- `num_resampled_samples`, with the quotient of the rates an exact fraction.
abbrev pub num_resampled_samples : (in_srate out_srate num_samples : ℕ) → ℕ
num_resampled_samples in_srate out_srate n =
    max (out_srate * n) (in_srate * n - out_srate * n) / in_srate

-- The client of JACK and its ports.
pub record Jack : Type 0 where
  pub client : Pointer
  pub in_l : Pointer
  pub in_r : Pointer

pub record JackAnswers : Type 0 where
  pub opened : Bool
  pub unique : Bool
  pub in_l : Bool
  pub in_r : Bool

abbrev pub jack_slots : Jack → List Pointer
jack_slots j = j.client ∷ j.in_l ∷ j.in_r ∷ []

abbrev pub no_jack : Jack
no_jack = record { client = null; in_l = null; in_r = null }

-- `fmmod_connect` from its label with an error.
abbrev pub disconnect : Jack → Jack
disconnect j = record j { in_l = give_back j.in_l; client = give_back j.client }

unfoldable pub connect : JackAnswers → Jack × ℤ
connect a =
    let opened = record no_jack { client = live } in
    let with_l = record opened { in_l = live } in
    if not a.opened
    then (no_jack, minus 3)
    else if not a.unique
    then (disconnect opened, minus 10)
    else if not a.in_l
    then (disconnect opened, minus 3)
    else if not a.in_r
    then (disconnect with_l, minus 3)
    else (record with_l { in_r = live }, pos 0)

-- The end of `fmmod_destroy` for JACK, in a graceful exit.
abbrev pub close_jack : Jack → Jack
close_jack j = record {
  in_l = give_back j.in_l;
  in_r = give_back j.in_r;
  client = give_back j.client;
}

pub record Buffers : Type 0 where
  pub inbuf_l : Pointer
  pub inbuf_r : Pointer
  pub uaudio_buf_0 : Pointer
  pub uaudio_buf_1 : Pointer
  pub umpxbuf : Pointer
  pub outbuf : Pointer

pub record BufferAnswers : Type 0 where
  pub inbuf_l : Bool
  pub inbuf_r : Bool
  pub uaudio_buf_0 : Bool
  pub uaudio_buf_1 : Bool
  pub umpxbuf : Bool
  pub outbuf : Bool

abbrev pub buffer_slots : Buffers → List Pointer
buffer_slots b = b.inbuf_l ∷ b.inbuf_r ∷ b.uaudio_buf_0 ∷ b.uaudio_buf_1 ∷ b.umpxbuf ∷ b.outbuf ∷ []

abbrev pub no_buffers : Buffers
no_buffers = record {
  inbuf_l = null;
  inbuf_r = null;
  uaudio_buf_0 = null;
  uaudio_buf_1 = null;
  umpxbuf = null;
  outbuf = null;
}

abbrev pub free_buffers : Buffers → Buffers
free_buffers b = record {
  inbuf_l = give_back b.inbuf_l;
  inbuf_r = give_back b.inbuf_r;
  uaudio_buf_0 = give_back b.uaudio_buf_0;
  uaudio_buf_1 = give_back b.uaudio_buf_1;
  umpxbuf = give_back b.umpxbuf;
  outbuf = give_back b.outbuf;
}

unfoldable pub init_buffers : BufferAnswers → Buffers × ℤ
init_buffers a =
    let b1 = record no_buffers { inbuf_l = live } in
    let b2 = record b1 { inbuf_r = live } in
    let b3 = record b2 { uaudio_buf_0 = live } in
    let b4 = record b3 { uaudio_buf_1 = live } in
    let b5 = record b4 { umpxbuf = live } in
    if not a.inbuf_l
    then (free_buffers no_buffers, minus 4)
    else if not a.inbuf_r
    then (free_buffers b1, minus 4)
    else if not a.uaudio_buf_0
    then (free_buffers b2, minus 4)
    else if not a.uaudio_buf_1
    then (free_buffers b3, minus 4)
    else if not a.umpxbuf
    then (free_buffers b4, minus 4)
    else if not a.outbuf
    then (free_buffers b5, minus 4)
    else (record b5 { outbuf = live }, pos 0)

-- The numbers of samples in the buffers: of input, upsampled, and of output.
abbrev pub buffer_lengths : (jack_rate num_in_samples : ℕ) → ℕ × ℕ × ℕ
buffer_lengths jack_rate num_in_samples =
    let upsampled = num_resampled_samples jack_rate 228000 num_in_samples in
    (num_in_samples, upsampled, num_resampled_samples 228000 192000 upsampled)

-- `struct fmmod_flts`.
pub record Filters : Type 0 where
  pub lpf_l : LpfSlots
  pub lpf_r : LpfSlots
  pub ssb_lpf : LpfSlots
  pub ht : HilbertSlots

pub record FilterAnswers : Type 0 where
  pub lpf_l : LpfAnswers
  pub lpf_r : LpfAnswers
  pub ssb_lpf : LpfAnswers
  pub ht : HilbertAnswers

abbrev pub filter_slots : Filters → List Pointer
filter_slots f =
    lpf_slots f.lpf_l ++ (lpf_slots f.lpf_r ++ (lpf_slots f.ssb_lpf ++ hilbert_slots f.ht))

abbrev pub no_filters : Filters
no_filters = record { lpf_l = no_lpf; lpf_r = no_lpf; ssb_lpf = no_lpf; ht = no_hilbert }

abbrev pub destroy_filters : Filters → Filters
destroy_filters f = record {
  lpf_l = lpf_filter_destroy f.lpf_l;
  lpf_r = lpf_filter_destroy f.lpf_r;
  ssb_lpf = lpf_filter_destroy f.ssb_lpf;
  ht = hilbert_transformer_destroy f.ht;
}

-- By whether each filter failed: the cleanup goes by the code, and of the audio's filters nothing is
-- destroyed.
unfoldable pub filters_by :
    (l_failed r_failed ssb_failed ht_failed : Bool)
    → (l r ssb : LpfSlots) → HilbertSlots
    → Filters × ℤ
filters_by l_failed r_failed ssb_failed ht_failed l r ssb ht =
    let with_l = record no_filters { lpf_l = l } in
    let with_r = record with_l { lpf_r = r } in
    let cleaned = record with_r { lpf_l = lpf_filter_destroy l; lpf_r = lpf_filter_destroy r } in
    if is_neg preemph_code
    then (no_filters, minus 13)
    else if l_failed
    then (with_l, minus 13)
    else if r_failed
    then (with_r, minus 13)
    else if ssb_failed
    then (record cleaned { ssb_lpf = ssb }, minus 11)
    else if ht_failed
    then (record cleaned { ssb_lpf = lpf_filter_destroy ssb; ht = ht }, minus 12)
    else (record with_r { ssb_lpf = ssb; ht = ht }, pos 0)

unfoldable pub init_filters : FilterAnswers → Filters × ℤ
unfolding lpf_filter_init hilbert_transformer_init filters_by
init_filters a =
    let (l, l_code) = lpf_filter_init a.lpf_l in
    let (r, r_code) = lpf_filter_init a.lpf_r in
    let (ssb, ssb_code) = lpf_filter_init a.ssb_lpf in
    let (ht, ht_code) = hilbert_transformer_init a.ht in
    filters_by (is_neg l_code) (is_neg r_code) (is_neg ssb_code) (is_neg ht_code) l r ssb ht
