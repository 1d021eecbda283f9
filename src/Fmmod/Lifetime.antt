-- ===== src/Fmmod/Lifetime.antt =====
-- What is left of an instance of the modulator when its initialisation fails, and at its end.
use jmpxrds.Base.{
  ℕ, List, [], ◌∷◌, Bool, true, false, not, ◌&&◌, ◌||◌, ◌==◌, if◌then◌else◌, ◌≡◌, refl, ap, ap₂,
  sym, subst,
}
use jmpxrds.Base.Int.{ℤ, is_neg, is_zero}
use jmpxrds.Resource.{
  is_live, is_dangling, is_freed_twice, give_back-not_live, give_back-freed_twice,
}
use jmpxrds.Encoder.{destroy}
use jmpxrds.Encoder.Lifecycle.{Released}
use jmpxrds.Rtp.Server.{rtp_server_destroy}
use jmpxrds.Rtp.Lifecycle.{IsReleased}
use jmpxrds.Resampler.Life.{resampler_slots}
use jmpxrds.Fmmod.Parts.{jack_slots, buffer_slots, filter_slots}
use jmpxrds.Fmmod.Life.{
  Parts, PartAnswers, some_pointer, prepare, finish_by, fmmod_destroy, fmmod_initialize,
}
use jmpxrds.Fmmod.LifeLaws.{
  some_pointer-parts, Holds, Prepared, unprepared, left_over, prepare-Prepared,
}

-- Nothing is held any more, some pointer was given back twice exactly if `twice`, and `closed` are
-- the descriptors that were closed.
pub record Ending {S : Type 0} (twice : Bool) (closed : List ℕ) (p : Parts S) : Type 0 where
  pub none_live : some_pointer is_live p ≡ false
  pub released_twice : some_pointer is_freed_twice p ≡ twice
  pub encoder : Released p.rds_enc
  pub server : IsReleased p.rtpsrv
  pub unmapped : (p.ctl_map ≡ false) × (p.fifo ≡ false)
  pub inactive : p.active ≡ false
  pub descriptors : p.closed ≡ closed

module _ {S : Type 0} where
  fmmod_destroy-Ending :
      (p : Parts S)
      → Released (destroy p.rds_enc).0
      → IsReleased (rtp_server_destroy p.rtpsrv).0
      → Ending (some_pointer is_dangling p) (p.out_sock_fd ∷ p.closed) (fmmod_destroy false p)
  unfolding fmmod_destroy
  fmmod_destroy-Ending p e v = record {
    none_live =
        some_pointer-parts is_live (fmmod_destroy false p) (give_back-not_live (jack_slots p.jack))
          (give_back-not_live (buffer_slots p.buffers))
          (give_back-not_live (resampler_slots p.rsmpl)) (give_back-not_live (filter_slots p.flts));
    released_twice =
        some_pointer-parts is_freed_twice (fmmod_destroy false p)
          (give_back-freed_twice (jack_slots p.jack))
          (give_back-freed_twice (buffer_slots p.buffers))
          (give_back-freed_twice (resampler_slots p.rsmpl))
          (give_back-freed_twice (filter_slots p.flts));
    encoder = e;
    server = v;
    unmapped = (refl, refl);
    inactive = refl;
    descriptors = refl;
  }

  pub Ending-subst :
      {t t' : Bool} {c c' : List ℕ} {p : Parts S} → t ≡ t' → c ≡ c' → Ending t c p → Ending t' c' p
  Ending-subst {t} {c' = c'} {p = p} e f v =
      subst (λ t. Ending t c' p) e (subst (λ c. Ending t c p) f v)

  -- An end with another descriptor of the pipe.
  pub Ending-sock :
      (p : Parts S) (fd : ℕ) {twice : Bool} {c : List ℕ}
      → p.closed ≡ []
      → Ending twice c (fmmod_destroy false p)
      → Ending twice (fd ∷ []) (fmmod_destroy false (record p { out_sock_fd = fd }))
  unfolding fmmod_destroy
  Ending-sock p fd none_closed v = record {
    none_live = v.none_live;
    released_twice = v.released_twice;
    encoder = v.encoder;
    server = v.server;
    unmapped = v.unmapped;
    inactive = v.inactive;
    descriptors = ap (λ fds. fd ∷ fds) none_closed;
  }

  -- All is held, and given back by `fmmod_destroy`.
  abbrev pub Kept : Bool → Bool → Parts S → Type 0
  Kept same_in twice p =
      (p.active ≡ true)
      × Holds same_in p
      × (p.closed ≡ [])
      × Ending twice (0 ∷ []) (fmmod_destroy false p)

  -- From what `prepare` gave, in each of the ways on.
  pub record Finished (same_in failed no_thread refused left : Bool) (r : Parts S × ℤ)
      : Type 0 where
    pub code : is_neg r.1 ≡ (failed || no_thread || refused)
    pub nothing_left : left ≡ (failed && left)
    pub outcome :
        if failed || (not no_thread && refused)
        then Ending left (0 ∷ []) r.0
        else Kept same_in left r.0

  Prepared-Ending :
      (act thr : Bool) {same_in failed left : Bool} (r : Parts S × ℤ)
      → Prepared same_in failed left r
      → Ending left (0 ∷ []) (fmmod_destroy false (record r.0 { active = act; proc_thread = thr }))
  Prepared-Ending act thr r v =
      Ending-subst v.dangling (ap₂ (λ fd fds. fd ∷ fds) v.unclosed.0 v.unclosed.1) (
        fmmod_destroy-Ending (record r.0 { active = act; proc_thread = thr }) v.enc_ends v.srv_ends)

  -- What is held does not depend on the two flags.
  with_thread :
      (act thr : Bool) {same_in : Bool} (p : Parts S)
      → Holds same_in p
      → Holds same_in (record p { active = act; proc_thread = thr })
  with_thread act thr p v = record {
    jack_live = v.jack_live;
    buffers_live = v.buffers_live;
    filters_live = v.filters_live;
    rsmpl_live = v.rsmpl_live;
    enc_up = v.enc_up;
    srv_up = v.srv_up;
    locks_made = v.locks_made;
    mapped = v.mapped;
  }

  finish_by-Finished :
      (failed no_thread refused : Bool) {same_in left : Bool} (r : Parts S × ℤ) (n : ℤ)
      → is_neg n ≡ no_thread
      → Prepared same_in failed left r
      → Finished same_in failed no_thread refused left (finish_by failed no_thread refused r n)
  unfolding finish_by
  finish_by-Finished true no_thread refused r n e v = record {
    code = v.code;
    nothing_left = refl;
    outcome = Prepared-Ending r.0.active r.0.proc_thread r v;
  }
  finish_by-Finished false true refused r n e v = record {
    code = e;
    nothing_left = v.clean refl;
    outcome = (
      refl,
      with_thread true r.0.proc_thread r.0 (v.on_success refl),
      v.unclosed.1,
      Prepared-Ending true r.0.proc_thread r v,
    );
  }
  finish_by-Finished false false true r n e v = record {
    code = refl;
    nothing_left = v.clean refl;
    outcome = Prepared-Ending true (is_zero n) r v;
  }
  finish_by-Finished false false false r n e v = record {
    code = refl;
    nothing_left = v.clean refl;
    outcome = (
      refl,
      with_thread true (is_zero n) r.0 (v.on_success refl),
      v.unclosed.1,
      Prepared-Ending true (is_zero n) r v,
    );
  }

  -- `fmmod_initialize`, whatever the calls of others answer. It fails exactly when a step before the
  -- processing thread does, the call for the thread gives a negative code, or JACK refuses to activate
  -- the client. In
  -- all these cases but that of the thread, the instance is then given back: no pointer is live, the
  -- encoder holds no buffer and no memory, the server's memory, pipeline, bus, pool and loop are released, the control channel and the named pipe are gone. But
  -- what the failed step of JACK, the buffers, the resamplers or the filters had itself given back is
  -- then given back a second time, and nothing else is. When it does not fail, or only for the
  -- thread, everything is held: the pointers of JACK, the buffers and the filters are all live, the
  -- resamplers are those that the rates need, the mutexes are made, the encoder is active with its buffers and its
  -- state, the server is active and holds all, and the control channel and the named pipe are there; and `fmmod_destroy` gives all of it back, nothing twice. In each case
  -- the descriptor that is closed in the end is 0. That SIGTERM, which two of the steps raise, can
  -- end the process before is left out.
  pub fmmod_initialize-Finished :
      (z : S) (frames : ℕ) (a : PartAnswers)
      → Finished
          (a.jack_samplerate == 228000)
          (unprepared a)
          (is_neg a.thread_code)
          (not a.activated)
          (left_over a)
          (fmmod_initialize z frames a)
  unfolding fmmod_initialize
  fmmod_initialize-Finished z frames a =
      let v = prepare-Prepared z frames a in
      subst
        (λ b.
          Finished (a.jack_samplerate == 228000) (unprepared a) (is_neg a.thread_code)
            (not a.activated) (left_over a)
            (finish_by b (is_neg a.thread_code) (not a.activated) (prepare z frames a)
              a.thread_code))
        (sym v.code)
        (finish_by-Finished (unprepared a) (is_neg a.thread_code) (not a.activated)
          (prepare z frames a) a.thread_code refl v)
