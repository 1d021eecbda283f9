-- ===== src/Fmmod/Sent.antt =====
-- What the end of a period sends to the socket and the RTP server.
use jmpxrds.Base.{
  ℕ, ◌≤◌, List, [], ◌∷◌, take, ◌*◌, ltb, length, Option, none, some, Bool, Bool-cases, true, false,
  not, ◌&&◌, ◌||◌, ◌==◌, if◌then◌else◌, ◌≡◌, ◌⊎◌, inl, inr, refl, sym, subst, ap, arith,
  length-take,
}
use jmpxrds.Rtp.Receivers.{RtpServerState, is_serving}
use jmpxrds.Rtp.Server.{send_buffer}
use jmpxrds.Fmmod.Oscilator.{Arith}
use jmpxrds.Fmmod.Mixing.{Gains}
use jmpxrds.Fmmod.Process.{
  Wrote, written, broken_pipe, write_failed, Instance, Period, logged, unlock_mpx, write_open,
  write_to_sock, peak, send_out,
}

-- Nothing more than before, or one more period of `n` samples.
abbrev pub IsMore {ℓ} : {A : Type ℓ} → ℕ → List (List A) → List (List A) → Type ℓ
IsMore n before after = (after ≡ before) ⊎ ((xs : List _) × (length xs ≡ n) × (after ≡ xs ∷ before))

-- Nothing more than before, or at most one more period of `n` samples.
abbrev pub IsPart {ℓ} : {A : Type ℓ} → ℕ → List (List A) → List (List A) → Type ℓ
IsPart n before after = (after ≡ before) ⊎ ((xs : List _) × (length xs ≤ n) × (after ≡ xs ∷ before))

unfoldable pub is_none {ℓ} : {B : Type ℓ} → Option B → Bool
is_none none = true
is_none (some x) = false

module _ {A D : Type 0} (ops : Arith A D) (gains : Gains A) (enabled : Bool) (w : Period A) where
  -- What stays of the instance.
  pub record IsSent (fm : Instance A D) (r : Instance A D × Bool) : Type 0 where
    pub unlocked : (r.0).locks ≡ unlock_mpx fm.locks
    pub same_mixer : (r.0).mixer ≡ fm.mixer
    pub wrote : IsPart fm.num_out_samples fm.on_sock (r.0).on_sock
    pub pushed : IsMore fm.num_out_samples fm.on_rtp (r.0).on_rtp

  IsMore-send_buffer :
      (st : RtpServerState) (n : ℕ) (out : List A) (room : Option ℕ) (log : List (List A))
      → length out ≡ n
      → IsMore n log (logged (send_buffer st (some out) (length out) room) log)
  unfolding send_buffer
  IsMore-send_buffer st n out none log e = inl refl
  IsMore-send_buffer st n out (some size) log e =
      by_tests (length out == 0 || not (is_serving st)) (ltb size (length out * 4))
    where
      by_tests :
          (a b : Bool)
          → IsMore n log
              (logged (if a then none else if b then none else some (take (length out) out)) log)
      by_tests true b = inl refl
      by_tests false true = inl refl
      by_tests false false =
          inr (take (length out) out, omega (arith, e, length-take (length out) out), refl)

  -- What writing to the socket may change.
  record IsWritten (n : ℕ) (fm fm' : Instance A D) : Type 0 where
    same_locks : fm'.locks ≡ fm.locks
    same_mixer : fm'.mixer ≡ fm.mixer
    same_rtp : fm'.on_rtp ≡ fm.on_rtp
    more : IsPart n fm.on_sock fm'.on_sock

  write_open-IsWritten :
      (r : Wrote) (n : ℕ) (out : List A) (fm : Instance A D)
      → length out ≡ n
      → IsWritten n fm (write_open ops gains enabled w r out fm)
  write_open-IsWritten (written k) n out fm e = record {
    same_locks = refl;
    same_mixer = refl;
    same_rtp = refl;
    more = inr (take k out, omega (arith, e, length-take k out), refl);
  }
  write_open-IsWritten broken_pipe n out fm e = record {
    same_locks = refl;
    same_mixer = refl;
    same_rtp = refl;
    more = inl refl;
  }
  write_open-IsWritten write_failed n out fm e = record {
    same_locks = refl;
    same_mixer = refl;
    same_rtp = refl;
    more = inl refl;
  }

  write_to_sock-IsWritten :
      (n : ℕ) (out : List A) (fm : Instance A D)
      → length out ≡ n
      → IsWritten n fm (write_to_sock ops gains enabled w out fm)
  unfolding write_to_sock
  write_to_sock-IsWritten n out fm e = by_test (not fm.out_sock && not w.open_ok)
    where
      by_test :
          (b : Bool)
          → IsWritten n fm (if b then fm else write_open ops gains enabled w w.write out fm)
      by_test true = record {
        same_locks = refl;
        same_mixer = refl;
        same_rtp = refl;
        more = inl refl;
      }
      by_test false = write_open-IsWritten w.write n out fm e

  pub send_out-IsSent :
      (out : Option (List A)) (fm : Instance A D) → IsSent fm (send_out ops gains enabled w out fm)
  unfolding send_out
  send_out-IsSent none fm = record {
    unlocked = refl;
    same_mixer = refl;
    wrote = inl refl;
    pushed = inl refl;
  }
  send_out-IsSent (some []) fm = record {
    unlocked = refl;
    same_mixer = refl;
    wrote = inl refl;
    pushed = inl refl;
  }
  send_out-IsSent (some (x ∷ xs)) fm = elim (Bool-cases (length (x ∷ xs) == fm.num_out_samples)) [
    | inl e ↦
        let shown : Instance A D = record fm {
          peak_mpx_out = peak ops gains enabled w (x ∷ xs) (ops.literal 0);
        } in
        let v = write_to_sock-IsWritten fm.num_out_samples (x ∷ xs) shown (ground (arith, e)) in
        rw e (record {
          unlocked = ap unlock_mpx v.same_locks;
          same_mixer = v.same_mixer;
          wrote = v.more;
          pushed =
              subst
                (λ log.
                  IsMore fm.num_out_samples fm.on_rtp (
                    logged (send_buffer fm.rtp_state (some (x ∷ xs)) (length (x ∷ xs)) w.room) log))
                (sym v.same_rtp)
                (IsMore-send_buffer fm.rtp_state fm.num_out_samples (x ∷ xs) w.room fm.on_rtp
                  (ground (arith, e)));
        })
    | inr e ↦
        rw e (record { unlocked = refl; same_mixer = refl; wrote = inl refl; pushed = inl refl })
  ]

  pub send_out-raised :
      (out : Option (List A)) (fm : Instance A D)
      → (send_out ops gains enabled w out fm).1 ≡ is_none out
  unfolding send_out is_none
  send_out-raised none fm = refl
  send_out-raised (some []) fm = refl
  send_out-raised (some (x ∷ xs)) fm =
      by_test (not (length (x ∷ xs) == fm.num_out_samples)) _ _ refl refl
    where
      by_test :
          (b : Bool) (p q : Instance A D × Bool)
          → p.1 ≡ false
          → q.1 ≡ false
          → (if b then p else q).1 ≡ false
      by_test true p q e f = e
      by_test false p q e f = f
