-- ===== src/Fmmod/PartLaws.antt =====
-- What the parts of an instance leave when they cannot be initialised.
use jmpxrds.Base.{
  List, ◌++◌, Bool, true, false, not, ◌&&◌, ◌||◌, if◌then◌else◌, ◌≡◌, refl, arith, ap, ap₂, ◌∙◌,
}
use jmpxrds.Base.Int.{ℤ, is_neg}
use jmpxrds.Resource.{
  Pointer, is_live, is_not_live, is_dangling, is_freed_twice, is_taken, any, any_append,
  give_back-dangling, give_back-freed_twice,
}
use jmpxrds.Fmmod.FilterLife.{
  LpfSlots, LpfAnswers, lpf_slots, lpf_filter_init, lpf_filter_destroy, HilbertSlots,
  HilbertAnswers, hilbert_slots, hilbert_transformer_init, no_hilbert,
}
use jmpxrds.Fmmod.Parts.{
  JackAnswers, jack_slots, connect, BufferAnswers, buffer_slots, init_buffers, Filters,
  FilterAnswers, filter_slots, init_filters, filters_by, no_filters,
}

-- An initialisation of some pointers that succeeds if `ok`; if it does not, some of them dangle
-- exactly if `left`.
pub record Leaves (ok left : Bool) (slots : List Pointer) (code : ℤ) : Type 0 where
  pub succeeds : is_neg code ≡ not ok
  pub dangling : any is_dangling slots ≡ (not ok && left)
  pub once : any is_freed_twice slots ≡ false
  pub taken : ok ≡ true → any is_taken slots ≡ true
  pub held : ok ≡ true → any is_not_live slots ≡ false

-- And nothing of it is live when it fails.
pub record Outcome (ok left : Bool) (slots : List Pointer) (code : ℤ) : Type 0 where
  pub leaves : Leaves ok left slots code
  pub none_left : ok ≡ false → any is_live slots ≡ false

abbrev pub jack_ok : JackAnswers → Bool
jack_ok a = a.opened && a.unique && a.in_l && a.in_r

pub connect-Outcome :
    (a : JackAnswers) → Outcome (jack_ok a) a.opened (jack_slots (connect a).0) (connect a).1
unfolding connect
connect-Outcome a = record { leaves = ground arith; none_left = ground arith }

abbrev pub buffers_ok : BufferAnswers → Bool
buffers_ok a = a.inbuf_l && a.inbuf_r && a.uaudio_buf_0 && a.uaudio_buf_1 && a.umpxbuf && a.outbuf

pub init_buffers-Outcome :
    (a : BufferAnswers)
    → Outcome (buffers_ok a) a.inbuf_l (buffer_slots (init_buffers a).0) (init_buffers a).1
unfolding init_buffers
init_buffers-Outcome a = record { leaves = ground arith; none_left = ground arith }

abbrev pub lpf_ok : LpfAnswers → Bool
lpf_ok a = a.real_in && a.real_out && a.complex_buff && a.filter_resp && a.dft_plan && a.ift_plan

pub lpf_filter_init-Outcome :
    (a : LpfAnswers)
    → Outcome (lpf_ok a) a.real_in (lpf_slots (lpf_filter_init a).0) (lpf_filter_init a).1
unfolding lpf_filter_init
lpf_filter_init-Outcome a = record { leaves = ground arith; none_left = ground arith }

abbrev pub hilbert_ok : HilbertAnswers → Bool
hilbert_ok a = a.real_buff && a.complex_buff && a.dft_plan && a.ift_plan

pub hilbert_transformer_init-Outcome :
    (a : HilbertAnswers)
    → Outcome
        (hilbert_ok a)
        a.real_buff
        (hilbert_slots (hilbert_transformer_init a).0)
        (hilbert_transformer_init a).1
unfolding hilbert_transformer_init
hilbert_transformer_init-Outcome a = record { leaves = ground arith; none_left = ground arith }

-- The preemphasis filters' modes are known.
abbrev pub filters_ok : FilterAnswers → Bool
filters_ok a = lpf_ok a.lpf_l && lpf_ok a.lpf_r && lpf_ok a.ssb_lpf && hilbert_ok a.ht

-- What dangles when the filters fail: all that the first filter to fail had, or a filter that was
-- destroyed after it was made.
abbrev pub filters_left : FilterAnswers → Bool
filters_left a =
    if not (lpf_ok a.lpf_l)
    then a.lpf_l.real_in
    else if not (lpf_ok a.lpf_r)
    then a.lpf_r.real_in
    else true

or_cong :
    {a a' b b' c c' d d' : Bool}
    → a ≡ a'
    → b ≡ b'
    → c ≡ c'
    → d ≡ d'
    → (a || (b || (c || d))) ≡ (a' || (b' || (c' || d')))
or_cong e f g h = ap₂ (λ x y. x || y) e (ap₂ (λ x y. x || y) f (ap₂ (λ x y. x || y) g h))

any-filter_slots :
    (is : Pointer → Bool) (f : Filters) {a b c d : Bool}
    → any is (lpf_slots f.lpf_l) ≡ a
    → any is (lpf_slots f.lpf_r) ≡ b
    → any is (lpf_slots f.ssb_lpf) ≡ c
    → any is (hilbert_slots f.ht) ≡ d
    → any is (filter_slots f) ≡ (a || (b || (c || d)))
any-filter_slots is f e_l e_r e_s e_h =
    any_append is (lpf_slots f.lpf_l)
      (lpf_slots f.lpf_r ++ (lpf_slots f.ssb_lpf ++ hilbert_slots f.ht))
    ∙ ap (λ b. any is (lpf_slots f.lpf_l) || b)
        (any_append is (lpf_slots f.lpf_r) (lpf_slots f.ssb_lpf ++ hilbert_slots f.ht)
          ∙ ap (λ b. any is (lpf_slots f.lpf_r) || b)
              (any_append is (lpf_slots f.ssb_lpf) (hilbert_slots f.ht)))
    ∙ or_cong e_l e_r e_s e_h

or_false : (b : Bool) → (b || false) ≡ b
or_false true = refl
or_false false = refl

-- Four filters that are made, or fail, one by one.
abbrev pub all_four : (l r s h : Bool) → Bool
all_four l r s h = l && r && s && h

abbrev pub left_of : (l l_left r r_left : Bool) → Bool
left_of l l_left r r_left = if not l then l_left else if not r then r_left else true

filters_by-Leaves :
    (l r s h l_left r_left s_left h_left : Bool) (lf rf sf : LpfSlots) (hf : HilbertSlots)
    {lc rc sc hc : ℤ}
    → Leaves l l_left (lpf_slots lf) lc
    → Leaves r r_left (lpf_slots rf) rc
    → Leaves s s_left (lpf_slots sf) sc
    → Leaves h h_left (hilbert_slots hf) hc
    → Leaves
        (all_four l r s h)
        (left_of l l_left r r_left)
        (filter_slots (filters_by (not l) (not r) (not s) (not h) lf rf sf hf).0)
        (filters_by (not l) (not r) (not s) (not h) lf rf sf hf).1
unfolding filters_by
filters_by-Leaves false r s h l_left r_left s_left h_left lf rf sf hf lv rv sv hv = record {
  succeeds = refl;
  dangling =
      any-filter_slots is_dangling (record no_filters { lpf_l = lf }) lv.dangling refl refl refl
      ∙ or_false l_left;
  once = any-filter_slots is_freed_twice (record no_filters { lpf_l = lf }) lv.once refl refl refl;
  taken = λ e. ground arith;
  held = λ e. ground arith;
}
filters_by-Leaves true false s h l_left r_left s_left h_left lf rf sf hf lv rv sv hv = record {
  succeeds = refl;
  dangling =
      any-filter_slots is_dangling (record no_filters { lpf_l = lf; lpf_r = rf }) lv.dangling
        rv.dangling refl refl
      ∙ or_false r_left;
  once =
      any-filter_slots is_freed_twice (record no_filters { lpf_l = lf; lpf_r = rf }) lv.once rv.once
        refl refl;
  taken = λ e. ground arith;
  held = λ e. ground arith;
}
filters_by-Leaves true true false h l_left r_left s_left h_left lf rf sf hf lv rv sv hv =
    let f : Filters = record {
      lpf_l = lpf_filter_destroy lf;
      lpf_r = lpf_filter_destroy rf;
      ssb_lpf = sf;
      ht = no_hilbert;
    } in
    record {
      succeeds = refl;
      dangling =
          any-filter_slots is_dangling f (give_back-dangling (lpf_slots lf) ∙ lv.taken refl) refl
            refl refl;
      once =
          any-filter_slots is_freed_twice f (give_back-freed_twice (lpf_slots lf) ∙ lv.dangling)
            (give_back-freed_twice (lpf_slots rf) ∙ rv.dangling) sv.once refl;
      taken = λ e. ground arith;
      held = λ e. ground arith;
    }
filters_by-Leaves true true true false l_left r_left s_left h_left lf rf sf hf lv rv sv hv =
    let f : Filters = record {
      lpf_l = lpf_filter_destroy lf;
      lpf_r = lpf_filter_destroy rf;
      ssb_lpf = lpf_filter_destroy sf;
      ht = hf;
    } in
    record {
      succeeds = refl;
      dangling =
          any-filter_slots is_dangling f (give_back-dangling (lpf_slots lf) ∙ lv.taken refl) refl
            refl refl;
      once =
          any-filter_slots is_freed_twice f (give_back-freed_twice (lpf_slots lf) ∙ lv.dangling)
            (give_back-freed_twice (lpf_slots rf) ∙ rv.dangling)
            (give_back-freed_twice (lpf_slots sf) ∙ sv.dangling) hv.once;
      taken = λ e. ground arith;
      held = λ e. ground arith;
    }
filters_by-Leaves true true true true l_left r_left s_left h_left lf rf sf hf lv rv sv hv =
    let f : Filters = record { lpf_l = lf; lpf_r = rf; ssb_lpf = sf; ht = hf } in
    record {
      succeeds = refl;
      dangling = any-filter_slots is_dangling f lv.dangling rv.dangling sv.dangling hv.dangling;
      once = any-filter_slots is_freed_twice f lv.once rv.once sv.once hv.once;
      taken = λ e. any-filter_slots is_taken f (lv.taken refl) refl refl refl;
      held = λ e.
          any-filter_slots is_not_live f (lv.held refl) (rv.held refl) (sv.held refl)
            (hv.held refl);
    }

-- The filters fail when one of them does; what dangles then is what the first of the audio's filters
-- that failed had, or the filters of audio, which are destroyed when a later one fails.
pub init_filters-Leaves :
    (a : FilterAnswers)
    → Leaves
        (all_four (lpf_ok a.lpf_l) (lpf_ok a.lpf_r) (lpf_ok a.ssb_lpf) (hilbert_ok a.ht))
        (left_of (lpf_ok a.lpf_l) a.lpf_l.real_in (lpf_ok a.lpf_r) a.lpf_r.real_in)
        (filter_slots (init_filters a).0)
        (init_filters a).1
unfolding init_filters
init_filters-Leaves a =
    let l = (lpf_filter_init-Outcome a.lpf_l).leaves in
    let r = (lpf_filter_init-Outcome a.lpf_r).leaves in
    let s = (lpf_filter_init-Outcome a.ssb_lpf).leaves in
    let h = (hilbert_transformer_init-Outcome a.ht).leaves in
    rw (l.succeeds, r.succeeds, s.succeeds, h.succeeds)
      (filters_by-Leaves (lpf_ok a.lpf_l) (lpf_ok a.lpf_r) (lpf_ok a.ssb_lpf) (hilbert_ok a.ht)
        a.lpf_l.real_in a.lpf_r.real_in a.ssb_lpf.real_in a.ht.real_buff (lpf_filter_init a.lpf_l).0
        (lpf_filter_init a.lpf_r).0 (lpf_filter_init a.ssb_lpf).0 (hilbert_transformer_init a.ht).0
        l r s h)
