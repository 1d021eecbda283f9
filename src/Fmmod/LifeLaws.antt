-- ===== src/Fmmod/LifeLaws.antt =====
-- What an instance of the modulator holds after its initialisation, and after its end.
use jmpxrds.Base.{
  ℕ, [], Option, none, some, Bool, true, false, not, ◌&&◌, ◌||◌, ◌==◌, if◌then◌else◌, ◌≡◌, refl,
  arith, ap, subst, ap₂, ◌∙◌,
}
use jmpxrds.Base.Int.{ℤ, pos, negsuc, is_neg}
use jmpxrds.Resource.{Pointer, is_live, is_not_live, is_dangling, is_freed_twice, any}
use jmpxrds.Config.State.{State}
use jmpxrds.Encoder.{active, Encoder, Answers, init, destroy, cleared}
use jmpxrds.Encoder.Lifecycle.{is_some, Released, init-Initialised}
use jmpxrds.Rtp.Server.{Server, rtp_server_init, rtp_server_destroy}
use jmpxrds.Rtp.Lifecycle.{IsReleased, HoldsAll, Started, all_but_thread, rtp_server_init-Started}
use jmpxrds.Resampler.Life.{Resampler, resampler_init, resampler_slots}
use jmpxrds.Resampler.Laws.{audio_ok, all_ok, resampler_init-Initialised}
use jmpxrds.Fmmod.Parts.{
  Jack, Buffers, Filters, connect, jack_slots, init_buffers, buffer_slots, init_filters,
  filter_slots,
}
use jmpxrds.Fmmod.PartLaws.{
  Leaves, jack_ok, connect-Outcome, buffers_ok, init_buffers-Outcome, lpf_ok, hilbert_ok, all_four,
  left_of, init_filters-Leaves,
}
use jmpxrds.Fmmod.Life.{
  made, Parts, PartAnswers, prepare_by, no_parts, no_server, some_pointer, prepare,
}

-- A Boolean by the first step that fails, of JACK, its rates, the buffers, the resamplers, the filters
-- and the later ones, or by none of them.
abbrev pub by_step :
    (jk rt bf rs fl en mk sv sh : Bool) → (jack rates buffers rsmpl flts later good : Bool) → Bool
by_step jk rt bf rs fl en mk sv sh jack rates buffers rsmpl flts later good =
    if not jk
    then jack
    else if rt
    then rates
    else if not bf
    then buffers
    else if not rs
    then rsmpl
    else if not fl
    then flts
    else if not (en && mk && sv && sh)
    then later
    else good

pub some_pointer-parts :
    {S : Type 0} (is : Pointer → Bool) (p : Parts S) {a b c d : Bool}
    → any is (jack_slots p.jack) ≡ a
    → any is (buffer_slots p.buffers) ≡ b
    → any is (resampler_slots p.rsmpl) ≡ c
    → any is (filter_slots p.flts) ≡ d
    → some_pointer is p ≡ (a || (b || (c || d)))
some_pointer-parts is p e f g h =
    ap₂ (λ x y. x || y) e (ap₂ (λ x y. x || y) f (ap₂ (λ x y. x || y) g h))

or_false : (b : Bool) → (b || false) ≡ b
or_false true = refl
or_false false = refl

abbrev pub no_rates : PartAnswers → Bool
no_rates a = (a.jack_samplerate == 0) || (a.num_in_samples == 0)

abbrev pub rsmpl_ok : PartAnswers → Bool
rsmpl_ok a = all_ok a.rsmpl (a.jack_samplerate == 228000) false

abbrev pub flts_ok : PartAnswers → Bool
flts_ok a =
    all_four (lpf_ok a.flts.lpf_l) (lpf_ok a.flts.lpf_r) (lpf_ok a.flts.ssb_lpf)
      (hilbert_ok a.flts.ht)

abbrev pub enc_ok : PartAnswers → Bool
enc_ok a =
    is_some a.rds_enc.shm
    && a.rds_enc.malloc_0
    && a.rds_enc.malloc_1
    && not (is_neg a.rds_enc.thread_code)

abbrev pub srv_ok : PartAnswers → Bool
srv_ok a = all_but_thread a.rtpsrv && not (is_neg a.rtpsrv.thread_code)

abbrev pub step_of : PartAnswers → (jack rates buffers rsmpl flts later good : Bool) → Bool
step_of a =
    by_step (jack_ok a.jack) (no_rates a) (buffers_ok a.buffers) (rsmpl_ok a) (flts_ok a) (enc_ok a)
      a.mkfifo (srv_ok a) a.shm

-- Some step before the processing thread fails.
abbrev pub unprepared : PartAnswers → Bool
unprepared a = step_of a true true true true true true false

-- Whether the resamplers had something when they failed.
abbrev pub rsmpl_left : PartAnswers → Bool
rsmpl_left a =
    (not (a.jack_samplerate == 228000) && a.rsmpl.audio_l)
    || (audio_ok a.rsmpl (a.jack_samplerate == 228000) && a.rsmpl.rds)

-- What was given back already by the step that failed, and is not marked as such.
abbrev pub left_over : PartAnswers → Bool
left_over a =
    step_of a a.jack.opened false a.buffers.inbuf_l (rsmpl_left a)
      (left_of (lpf_ok a.flts.lpf_l) a.flts.lpf_l.real_in (lpf_ok a.flts.lpf_r)
        a.flts.lpf_r.real_in)
      false false

no_server-IsReleased : IsReleased no_server
no_server-IsReleased = record {
  unmapped = refl;
  no_pipeline = (refl, refl);
  no_pool = refl;
  no_loop = refl;
}

pub srv-Started :
    (a : PartAnswers) → Started a.rtpsrv no_server (rtp_server_init a.rtpsrv no_server 192000 5000)
srv-Started a = rtp_server_init-Started a.rtpsrv no_server 192000 5000 no_server-IsReleased

no_server-ends : IsReleased (rtp_server_destroy no_server).0
unfolding rtp_server_destroy
no_server-ends = no_server-IsReleased

cleared-ends : {S : Type 0} → Released (destroy (cleared {S = S})).0
unfolding destroy
cleared-ends = record { no_waveform_0 = refl; no_waveform_1 = refl; unmapped = refl }

-- The resamplers of audio where JACK's rate is another than the oscilator's, and the two others.
abbrev pub HoldsRates : Bool → Resampler → Type 0
HoldsRates same_in r =
    (is_live r.audio_upsampler_l ≡ not same_in)
    × (is_live r.audio_upsampler_r ≡ not same_in)
    × (is_live r.rds_upsampler ≡ true)
    × (is_live r.mpx_downsampler ≡ true)

-- An active encoder with its two buffers and its state.
abbrev pub HoldsBuffers : {S : Type 0} → Encoder S → Type 0
HoldsBuffers enc =
    (enc.status ≡ active)
    × (is_some enc.outbuf_0.waveform ≡ true)
    × (is_some enc.outbuf_1.waveform ≡ true)
    × (is_some enc.state ≡ true)

-- The parts that an instance of the modulator holds: every pointer of JACK, the buffers and the filters
-- is live, the resamplers are those that its rates need, and the rest is up.
pub record Holds {S : Type 0} (same_in : Bool) (p : Parts S) : Type 0 where
  pub jack_live : any is_not_live (jack_slots p.jack) ≡ false
  pub buffers_live : any is_not_live (buffer_slots p.buffers) ≡ false
  pub filters_live : any is_not_live (filter_slots p.flts) ≡ false
  pub rsmpl_live : HoldsRates same_in p.rsmpl
  pub enc_up : HoldsBuffers p.rds_enc
  pub srv_up : HoldsAll p.rtpsrv
  pub locks_made : p.locks ≡ made
  pub mapped : (p.ctl_map ≡ true) × (p.fifo ≡ true)

pub record Prepared {S : Type 0} (same_in fails dangles : Bool) (r : Parts S × ℤ) : Type 0 where
  pub code : is_neg r.1 ≡ fails
  pub dangling : some_pointer is_dangling r.0 ≡ dangles
  pub once : some_pointer is_freed_twice r.0 ≡ false
  pub clean : fails ≡ false → dangles ≡ false
  pub enc_ends : Released (destroy r.0.rds_enc).0
  pub srv_ends : IsReleased (rtp_server_destroy r.0.rtpsrv).0
  pub unclosed : (r.0.out_sock_fd ≡ 0) × (r.0.closed ≡ [])
  pub on_success : fails ≡ false → Holds same_in r.0

module _ {S : Type 0} (same_in jo bo so fo : Bool) (jack : Jack) (buffers : Buffers)
    (rsmpl : Resampler) (flts : Filters) (enc : Encoder S × Bool) (srv : Server × Bool) where
  prepare_by-Prepared :
      (jk rt bf rs fl en mk sv sh : Bool) {jc bc fc : ℤ}
      → Leaves jk jo (jack_slots jack) jc
      → Leaves bf bo (buffer_slots buffers) bc
      → any is_dangling (resampler_slots rsmpl) ≡ (not rs && so)
      → any is_freed_twice (resampler_slots rsmpl) ≡ false
      → Leaves fl fo (filter_slots flts) fc
      → Released (destroy (enc.0)).0
      → IsReleased (rtp_server_destroy srv.0).0
      → (rs ≡ true → HoldsRates same_in rsmpl)
      → (en ≡ true → HoldsBuffers (enc.0))
      → (sv ≡ true → HoldsAll srv.0)
      → Prepared same_in
          (by_step jk rt bf rs fl en mk sv sh true true true true true true false)
          (by_step jk rt bf rs fl en mk sv sh jo false bo so fo false false)
          (prepare_by
            (not jk)
            rt
            (not bf)
            (not rs)
            (not fl)
            (not en)
            (not mk)
            (not sv)
            (not sh)
            (jack, jc)
            (buffers, bc)
            rsmpl
            (flts, fc)
            enc
            srv)
  unfolding prepare_by destroy
  prepare_by-Prepared false rt bf rs fl en mk sv sh jv bv sd st fv ev vv gs ge gv = record {
    code = jv.succeeds;
    dangling =
        some_pointer-parts is_dangling (record (no_parts {S = S}) { jack = jack }) jv.dangling refl
          refl refl
        ∙ or_false jo;
    once =
        some_pointer-parts is_freed_twice (record (no_parts {S = S}) { jack = jack }) jv.once refl
          refl refl;
    clean = λ e. ground arith;
    enc_ends = cleared-ends;
    srv_ends = no_server-ends;
    unclosed = (refl, refl);
    on_success = λ e. ground arith;
  }
  prepare_by-Prepared true true bf rs fl en mk sv sh jv bv sd st fv ev vv gs ge gv = record {
    code = refl;
    dangling =
        some_pointer-parts is_dangling (record (no_parts {S = S}) { jack = jack }) jv.dangling refl
          refl refl;
    once =
        some_pointer-parts is_freed_twice (record (no_parts {S = S}) { jack = jack }) jv.once refl
          refl refl;
    clean = λ e. ground arith;
    enc_ends = cleared-ends;
    srv_ends = no_server-ends;
    unclosed = (refl, refl);
    on_success = λ e. ground arith;
  }
  prepare_by-Prepared true false false rs fl en mk sv sh jv bv sd st fv ev vv gs ge gv = record {
    code = bv.succeeds;
    dangling =
        some_pointer-parts is_dangling
          (record (no_parts {S = S}) { jack = jack; buffers = buffers }) jv.dangling bv.dangling
          refl refl
        ∙ or_false bo;
    once =
        some_pointer-parts is_freed_twice
          (record (no_parts {S = S}) { jack = jack; buffers = buffers }) jv.once bv.once refl refl;
    clean = λ e. ground arith;
    enc_ends = cleared-ends;
    srv_ends = no_server-ends;
    unclosed = (refl, refl);
    on_success = λ e. ground arith;
  }
  prepare_by-Prepared true false true false fl en mk sv sh jv bv sd st fv ev vv gs ge gv = record {
    code = refl;
    dangling =
        some_pointer-parts is_dangling
          (record (no_parts {S = S}) { jack = jack; buffers = buffers; rsmpl = rsmpl }) jv.dangling
          bv.dangling sd refl
        ∙ or_false so;
    once =
        some_pointer-parts is_freed_twice
          (record (no_parts {S = S}) { jack = jack; buffers = buffers; rsmpl = rsmpl }) jv.once
          bv.once st refl;
    clean = λ e. ground arith;
    enc_ends = cleared-ends;
    srv_ends = no_server-ends;
    unclosed = (refl, refl);
    on_success = λ e. ground arith;
  }
  prepare_by-Prepared true false true true false en mk sv sh jv bv sd st fv ev vv gs ge gv =
      record {
        code = fv.succeeds;
        dangling =
            some_pointer-parts is_dangling
              (record (no_parts {S = S}) {
                jack = jack;
                buffers = buffers;
                rsmpl = rsmpl;
                flts = flts;
              })
              jv.dangling bv.dangling sd fv.dangling;
        once =
            some_pointer-parts is_freed_twice
              (record (no_parts {S = S}) {
                jack = jack;
                buffers = buffers;
                rsmpl = rsmpl;
                flts = flts;
              })
              jv.once bv.once st fv.once;
        clean = λ e. ground arith;
        enc_ends = cleared-ends;
        srv_ends = no_server-ends;
        unclosed = (refl, refl);
        on_success = λ e. ground arith;
      }
  prepare_by-Prepared true false true true true false mk sv sh jv bv sd st fv ev vv gs ge gv =
      record {
        code = refl;
        dangling =
            some_pointer-parts is_dangling
              (record (no_parts {S = S}) {
                jack = jack;
                buffers = buffers;
                rsmpl = rsmpl;
                flts = flts;
              })
              jv.dangling bv.dangling sd fv.dangling;
        once =
            some_pointer-parts is_freed_twice
              (record (no_parts {S = S}) {
                jack = jack;
                buffers = buffers;
                rsmpl = rsmpl;
                flts = flts;
              })
              jv.once bv.once st fv.once;
        clean = λ e. ground arith;
        enc_ends = ev;
        srv_ends = no_server-ends;
        unclosed = (refl, refl);
        on_success = λ e. ground arith;
      }
  prepare_by-Prepared true false true true true true false sv sh jv bv sd st fv ev vv gs ge gv =
      record {
        code = refl;
        dangling =
            some_pointer-parts is_dangling
              (record (no_parts {S = S}) {
                jack = jack;
                buffers = buffers;
                rsmpl = rsmpl;
                flts = flts;
              })
              jv.dangling bv.dangling sd fv.dangling;
        once =
            some_pointer-parts is_freed_twice
              (record (no_parts {S = S}) {
                jack = jack;
                buffers = buffers;
                rsmpl = rsmpl;
                flts = flts;
              })
              jv.once bv.once st fv.once;
        clean = λ e. ground arith;
        enc_ends = ev;
        srv_ends = no_server-ends;
        unclosed = (refl, refl);
        on_success = λ e. ground arith;
      }
  prepare_by-Prepared true false true true true true true false sh jv bv sd st fv ev vv gs ge gv =
      record {
        code = refl;
        dangling =
            some_pointer-parts is_dangling
              (record (no_parts {S = S}) {
                jack = jack;
                buffers = buffers;
                rsmpl = rsmpl;
                flts = flts;
              })
              jv.dangling bv.dangling sd fv.dangling;
        once =
            some_pointer-parts is_freed_twice
              (record (no_parts {S = S}) {
                jack = jack;
                buffers = buffers;
                rsmpl = rsmpl;
                flts = flts;
              })
              jv.once bv.once st fv.once;
        clean = λ e. ground arith;
        enc_ends = ev;
        srv_ends = vv;
        unclosed = (refl, refl);
        on_success = λ e. ground arith;
      }
  prepare_by-Prepared true false true true true true true true false jv bv sd st fv ev vv gs ge gv =
      record {
        code = refl;
        dangling =
            some_pointer-parts is_dangling
              (record (no_parts {S = S}) {
                jack = jack;
                buffers = buffers;
                rsmpl = rsmpl;
                flts = flts;
              })
              jv.dangling bv.dangling sd fv.dangling;
        once =
            some_pointer-parts is_freed_twice
              (record (no_parts {S = S}) {
                jack = jack;
                buffers = buffers;
                rsmpl = rsmpl;
                flts = flts;
              })
              jv.once bv.once st fv.once;
        clean = λ e. ground arith;
        enc_ends = ev;
        srv_ends = vv;
        unclosed = (refl, refl);
        on_success = λ e. ground arith;
      }
  prepare_by-Prepared true false true true true true true true true jv bv sd st fv ev vv gs ge gv =
      record {
        code = refl;
        dangling =
            some_pointer-parts is_dangling
              (record (no_parts {S = S}) {
                jack = jack;
                buffers = buffers;
                rsmpl = rsmpl;
                flts = flts;
              })
              jv.dangling bv.dangling sd fv.dangling;
        once =
            some_pointer-parts is_freed_twice
              (record (no_parts {S = S}) {
                jack = jack;
                buffers = buffers;
                rsmpl = rsmpl;
                flts = flts;
              })
              jv.once bv.once st fv.once;
        clean = λ e. ground arith;
        enc_ends = ev;
        srv_ends = vv;
        unclosed = (refl, refl);
        on_success = λ e. record {
          jack_live = jv.held refl;
          buffers_live = bv.held refl;
          filters_live = fv.held refl;
          rsmpl_live = gs refl;
          enc_up = ge refl;
          srv_up = gv refl;
          locks_made = refl;
          mapped = (refl, refl);
        };
      }

module _ {S : Type 0} (z : S) (frames : ℕ) where
  init-ends : (a : Answers) → Released (destroy (init z frames a).0).0
  unfolding init destroy
  init-ends a = by_answers a.shm a.malloc_0 a.malloc_1 a.thread_code
    where
      by_answers :
          (o : Option State) (b c : Bool) (d : ℤ)
          → Released
              (destroy
                (init z frames
                  (record { shm = o; malloc_0 = b; malloc_1 = c; thread_code = d })).0).0
      by_answers none b c d = record { no_waveform_0 = refl; no_waveform_1 = refl; unmapped = refl }
      by_answers (some m) false c d = record {
        no_waveform_0 = refl;
        no_waveform_1 = refl;
        unmapped = refl;
      }
      by_answers (some m) true false d = record {
        no_waveform_0 = refl;
        no_waveform_1 = refl;
        unmapped = refl;
      }
      by_answers (some m) true true (negsuc n) = record {
        no_waveform_0 = refl;
        no_waveform_1 = refl;
        unmapped = refl;
      }
      by_answers (some m) true true (pos n) = record {
        no_waveform_0 = refl;
        no_waveform_1 = refl;
        unmapped = refl;
      }

  init-HoldsBuffers :
      (a : Answers)
      → (is_some a.shm && a.malloc_0 && a.malloc_1 && not (is_neg a.thread_code)) ≡ true
      → HoldsBuffers (init z frames a).0
  unfolding init
  init-HoldsBuffers a e = by_answers a.shm a.malloc_0 a.malloc_1 a.thread_code e
    where
      by_answers :
          (o : Option State) (b c : Bool) (d : ℤ)
          → (is_some o && b && c && not (is_neg d)) ≡ true
          → HoldsBuffers
              (init z frames (record { shm = o; malloc_0 = b; malloc_1 = c; thread_code = d })).0
      by_answers none b c d e = absurd (ground (arith, e))
      by_answers (some m) false c d e = absurd (ground (arith, e))
      by_answers (some m) true false d e = absurd (ground (arith, e))
      by_answers (some m) true true (negsuc n) e = absurd (ground (arith, e))
      by_answers (some m) true true (pos n) e = (refl, refl, refl, refl)

  resampler_init-HoldsRates :
      (a : PartAnswers)
      → rsmpl_ok a ≡ true
      → HoldsRates
          (a.jack_samplerate == 228000)
          (resampler_init a.rsmpl a.jack_samplerate 228000 192000).0
  resampler_init-HoldsRates a e =
      let r = resampler_init-Initialised a.rsmpl a.jack_samplerate 228000 192000 in
      (
        r.audio_live ∙ ap (λ b. b && not (a.jack_samplerate == 228000)) e,
        r.right_live ∙ ap (λ b. b && not (a.jack_samplerate == 228000)) e,
        r.rds_live ∙ e,
        r.mpx_live ∙ ap (λ b. b && true) e,
      )

  srv-HoldsAll :
      (a : PartAnswers)
      → srv_ok a ≡ true
      → HoldsAll (rtp_server_init a.rtpsrv no_server 192000 5000).0
  srv-HoldsAll a e =
      subst
        (λ (b : Bool).
          if b
          then HoldsAll (rtp_server_init a.rtpsrv no_server 192000 5000).0
          else IsReleased (rtp_server_init a.rtpsrv no_server 192000 5000).0)
        e (srv-Started a).held

  pub prepare-Prepared :
      (a : PartAnswers)
      → Prepared (a.jack_samplerate == 228000) (unprepared a) (left_over a) (prepare z frames a)
  unfolding prepare
  prepare-Prepared a =
      let j = (connect-Outcome a.jack).leaves in
      let b = (init_buffers-Outcome a.buffers).leaves in
      let r = resampler_init-Initialised a.rsmpl a.jack_samplerate 228000 192000 in
      let f = init_filters-Leaves a.flts in
      let e = init-Initialised z frames a.rds_enc in
      let s = srv-Started a in
      rw (j.succeeds, b.succeeds, r.code, f.succeeds, e.succeeds, s.code)
        (prepare_by-Prepared (a.jack_samplerate == 228000) a.jack.opened a.buffers.inbuf_l
          (rsmpl_left a)
          (left_of (lpf_ok a.flts.lpf_l) a.flts.lpf_l.real_in (lpf_ok a.flts.lpf_r)
            a.flts.lpf_r.real_in)
          (connect a.jack).0 (init_buffers a.buffers).0
          (resampler_init a.rsmpl a.jack_samplerate 228000 192000).0 (init_filters a.flts).0
          ((init z frames a.rds_enc).0, (init z frames a.rds_enc).1)
          (
            (rtp_server_init a.rtpsrv no_server 192000 5000).0,
            (rtp_server_init a.rtpsrv no_server 192000 5000).1,
          )
          (jack_ok a.jack) (no_rates a) (buffers_ok a.buffers) (rsmpl_ok a) (flts_ok a) (enc_ok a)
          a.mkfifo (srv_ok a) a.shm j b r.dangling r.once f (init-ends a.rds_enc) s.ended
          (resampler_init-HoldsRates a) (init-HoldsBuffers a.rds_enc) (srv-HoldsAll a))
