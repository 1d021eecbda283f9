-- ===== src/Encoder/Playback.antt =====
-- What `rds_get_next_sample` plays of the buffers that the main loop fills.
use jmpxrds.Base.{
  ℕ, zero, suc, ◌+◌, ◌<◌, ◌≤◌, List, [], ◌∷◌, Option, none, some, true, false, length, get_or, ◌≡◌,
  refl, sym, ap, ap₂, Bool-cases, inl, inr, ◌∙◌, arith, ltb, lt→ltb, subst, ◌==◌,
}
use jmpxrds.Base.Int.{ℤ, pos, is_neg}
use jmpxrds.Group.Fill.{Filled}
use jmpxrds.Encoder.{
  Outbuf, Encoder, active, outbuf, set_outbuf, other_idx, sample_at, get_next_sample,
  main_loop_pass, next_upsampled_group,
}

module _ {S : Type 0} (z : S) where
  -- `n` calls of an enabled encoder.
  unfoldable pub play : ℕ → Encoder S → List S × Encoder S
  play zero enc = ([], enc)
  play (suc n) enc =
      let (x, enc') = get_next_sample z true enc in let (xs, enc'') = play n enc' in (x ∷ xs, enc'')

  -- `n` samples of a waveform from the k-th on.
  unfoldable pub reads : List S → ℕ → ℕ → List S
  reads xs k zero = []
  reads xs k (suc n) = get_or xs k z ∷ reads xs (suc k) n

  pub reads_tail : (x : S) (xs : List S) (k n : ℕ) → reads (x ∷ xs) (suc k) n ≡ reads xs k n
  unfolding reads
  reads_tail x xs k zero = refl
  reads_tail x xs k (suc n) = ap (λ r. get_or xs k z ∷ r) (reads_tail x xs (suc k) n)

  pub reads_all : (xs : List S) → reads xs 0 (length xs) ≡ xs
  unfolding reads
  reads_all [] = refl
  reads_all (x ∷ xs) = ap (λ r. x ∷ r) (reads_tail x xs 0 (length xs) ∙ reads_all xs)

  pub sample_at-some :
      (b : Outbuf S) (xs : List S) (i : ℕ) → b.waveform ≡ some xs → sample_at z b i ≡ get_or xs i z
  sample_at-some b xs i h = ap (λ o. elim o [ none ↦ z | some ys ↦ get_or ys i z ]) h

  le→ltb : (a b : ℕ) → b ≤ a → ltb a b ≡ false
  le→ltb a b h = ground arith

  -- A sample that is left.
  pub get_next_sample-left :
      (enc : Encoder S) (xs : List S)
      → enc.status ≡ active
      → (outbuf enc enc.curr_outbuf_idx).waveform ≡ some xs
      → enc.samples_out < (outbuf enc enc.curr_outbuf_idx).waveform_samples
      → get_next_sample z true enc
        ≡ (get_or xs enc.samples_out z, record enc { samples_out = enc.samples_out + 1 })
  unfolding get_next_sample
  get_next_sample-left enc xs is_act is_xs left = simp (
    is_act,
    lt→ltb enc.samples_out ((outbuf enc enc.curr_outbuf_idx).waveform_samples) left,
    sample_at-some (outbuf enc enc.curr_outbuf_idx) xs enc.samples_out is_xs,
  )

  pub play-left :
      (n : ℕ) (enc : Encoder S) (xs : List S)
      → enc.status ≡ active
      → (outbuf enc enc.curr_outbuf_idx).waveform ≡ some xs
      → enc.samples_out + n ≤ (outbuf enc enc.curr_outbuf_idx).waveform_samples
      → play n enc ≡ (reads xs enc.samples_out n, record enc { samples_out = enc.samples_out + n })
  unfolding play reads
  play-left zero enc xs is_act is_xs fits = ap (λ k. ([], record enc { samples_out = k })) (same)
    where
      same : enc.samples_out ≡ enc.samples_out + 0
      same = omega arith
  play-left (suc n) enc xs is_act is_xs fits =
      ap (λ r. (r.0 ∷ (play n (r.1)).0, (play n (r.1)).1))
        (get_next_sample-left enc xs is_act is_xs (omega arith))
      ∙ ap (λ r. (get_or xs enc.samples_out z ∷ r.0, r.1))
          (play-left n (record enc { samples_out = enc.samples_out + 1 }) xs is_act is_xs
            (omega arith))
      ∙ ap₂ (λ i j. (get_or xs enc.samples_out z ∷ reads xs i n, record enc { samples_out = j }))
          next_one total
    where
      next_one : enc.samples_out + 1 ≡ suc enc.samples_out
      next_one = omega arith

      total : enc.samples_out + 1 + n ≡ enc.samples_out + suc n
      total = omega arith

  -- What the main loop's pass leaves for the player.
  pub main_loop_pass-fills :
      (upsample : List ℤ → ℕ → Option (List S)) (g : Filled) (enc : Encoder S) (xs : List S)
      → enc.status ≡ active
      → is_neg g.ret ≡ false
      → upsample (g.group.samples_buffer) enc.upsampled_waveform_len ≡ some xs
      → main_loop_pass upsample g enc ≡ (
        set_outbuf enc
            (other_idx enc.curr_outbuf_idx)
            (record { waveform = some xs; waveform_samples = length xs; result = pos 0 }),
        true,
        false,
      )
  unfolding main_loop_pass next_upsampled_group
  main_loop_pass-fills upsample g enc xs is_act is_ok is_xs =
      elim (Bool-cases (enc.curr_outbuf_idx == 0)) [
        | inl h ↦ simp (main_loop_pass, next_upsampled_group, is_act, h, is_ok, is_xs)
        | inr h ↦ simp (main_loop_pass, next_upsampled_group, is_act, h, is_ok, is_xs)
      ]

  -- The call that swaps the buffers.
  pub get_next_sample-swap :
      (enc : Encoder S) (xs : List S)
      → enc.status ≡ active
      → (outbuf enc (other_idx enc.curr_outbuf_idx)).waveform ≡ some xs
      → (outbuf enc enc.curr_outbuf_idx).waveform_samples ≤ enc.samples_out
      → get_next_sample z true enc ≡ (
        get_or xs 0 z,
        record enc {
          curr_outbuf_idx = other_idx enc.curr_outbuf_idx;
          signals = enc.signals + 1;
          samples_out = 1;
        },
      )
  unfolding get_next_sample
  get_next_sample-swap enc xs is_act is_xs all_out = simp (
    is_act,
    le→ltb enc.samples_out ((outbuf enc enc.curr_outbuf_idx).waveform_samples) all_out,
    sample_at-some (outbuf enc (other_idx enc.curr_outbuf_idx)) xs 0 is_xs,
  )

  pub play-swap :
      (enc : Encoder S) (x : S) (xs : List S)
      → enc.status ≡ active
      → (outbuf enc (other_idx enc.curr_outbuf_idx)).waveform ≡ some (x ∷ xs)
      → (outbuf enc (other_idx enc.curr_outbuf_idx)).waveform_samples ≡ length (x ∷ xs)
      → (outbuf enc enc.curr_outbuf_idx).waveform_samples ≤ enc.samples_out
      → play (length (x ∷ xs)) enc ≡ (
        x ∷ xs,
        record enc {
          curr_outbuf_idx = other_idx enc.curr_outbuf_idx;
          signals = enc.signals + 1;
          samples_out = length (x ∷ xs);
        },
      )
  unfolding play
  play-swap enc x xs is_act is_xs all_there all_out =
      ap (λ r. (r.0 ∷ (play (length xs) (r.1)).0, (play (length xs) (r.1)).1))
        (get_next_sample-swap enc (x ∷ xs) is_act is_xs all_out)
      ∙ ap (λ r. (x ∷ r.0, r.1))
          (play-left (length xs)
            (record enc {
              curr_outbuf_idx = other_idx enc.curr_outbuf_idx;
              signals = enc.signals + 1;
              samples_out = 1;
            })
            (x ∷ xs) is_act is_xs (omega arith))
      ∙ ap₂
          (λ l j. (
            x ∷ l,
            record enc {
              curr_outbuf_idx = other_idx enc.curr_outbuf_idx;
              signals = enc.signals + 1;
              samples_out = j;
            },
          ))
          (reads_tail x xs 0 (length xs) ∙ reads_all xs) total
    where
      total : 1 + length xs ≡ length (x ∷ xs)
      total = omega arith

  outbuf-set_outbuf :
      (enc : Encoder S) (b : Outbuf S)
      → outbuf (set_outbuf enc (other_idx enc.curr_outbuf_idx) b) (other_idx enc.curr_outbuf_idx)
        ≡ b
  outbuf-set_outbuf enc b = elim (Bool-cases (enc.curr_outbuf_idx == 0)) [
    | inl h ↦ simp h
    | inr h ↦ simp h
  ]

  outbuf-set_outbuf-curr :
      (enc : Encoder S) (b : Outbuf S)
      → outbuf (set_outbuf enc (other_idx enc.curr_outbuf_idx) b) enc.curr_outbuf_idx
        ≡ outbuf enc enc.curr_outbuf_idx
  outbuf-set_outbuf-curr enc b = elim (Bool-cases (enc.curr_outbuf_idx == 0)) [
    | inl h ↦ simp h
    | inr h ↦ simp h
  ]

  -- The `n` samples from the k-th of a waveform are played, then the waveform `xs`, with one more
  -- trigger of the main loop.
  pub record PlaysOn (enc : Encoder S) (ys xs : List S) (k n : ℕ) : Type 0 where
    pub rest : (play n enc).0 ≡ reads ys k n
    pub next : (play (length xs) ((play n enc).1)).0 ≡ xs
    pub one_signal : ((play (length xs) ((play n enc).1)).1).signals ≡ enc.signals + 1

  pub play-PlaysOn :
      (enc : Encoder S) (ys : List S) (x : S) (xs : List S) (n : ℕ)
      → enc.status ≡ active
      → (outbuf enc enc.curr_outbuf_idx).waveform ≡ some ys
      → (outbuf enc enc.curr_outbuf_idx).waveform_samples ≡ enc.samples_out + n
      → outbuf enc (other_idx enc.curr_outbuf_idx)
        ≡ record { waveform = some (x ∷ xs); waveform_samples = length (x ∷ xs); result = pos 0 }
      → PlaysOn enc ys (x ∷ xs) enc.samples_out n
  play-PlaysOn enc ys x xs n is_act is_ys left made = record {
    rest = ap (λ r. r.0) played;
    next = ap (λ r. (play (length (x ∷ xs)) (r.1)).0) played ∙ ap (λ r. r.0) swapped;
    one_signal =
        ap (λ r. ((play (length (x ∷ xs)) (r.1)).1).signals) played
        ∙ ap (λ r. (r.1).signals) swapped;
  }
    where
      played :
          play n enc
          ≡ (reads ys enc.samples_out n, record enc { samples_out = enc.samples_out + n })
      played = play-left n enc ys is_act is_ys (omega arith)

      swapped : play (length (x ∷ xs)) (record enc { samples_out = enc.samples_out + n }) ≡ (
        x ∷ xs,
        record enc {
          curr_outbuf_idx = other_idx enc.curr_outbuf_idx;
          signals = enc.signals + 1;
          samples_out = length (x ∷ xs);
        },
      )
      swapped =
          play-swap (record enc { samples_out = enc.samples_out + n }) x xs is_act
            (ap (λ b. b.waveform) made) (ap (λ b. b.waveform_samples) made) (omega arith)

  -- An active encoder has played a waveform `ys` up to the k-th sample, and `n` are left. The main
  -- loop's pass fills the other buffer with the waveform, not empty, that the resampler makes of
  -- the scheduler's group. Then the player gives the `n` samples that are left, undisturbed, and
  -- after them the new waveform, from its first sample to its last, and triggers the loop once.
  pub play-main_loop_pass :
      (upsample : List ℤ → ℕ → Option (List S)) (g : Filled) (enc : Encoder S) (ys : List S) (x : S)
      (xs : List S) (n : ℕ)
      → enc.status ≡ active
      → is_neg g.ret ≡ false
      → upsample (g.group.samples_buffer) enc.upsampled_waveform_len ≡ some (x ∷ xs)
      → (outbuf enc enc.curr_outbuf_idx).waveform ≡ some ys
      → (outbuf enc enc.curr_outbuf_idx).waveform_samples ≡ enc.samples_out + n
      → PlaysOn ((main_loop_pass upsample g enc).0) ys (x ∷ xs) enc.samples_out n
  play-main_loop_pass upsample g enc ys x xs n is_act is_ok is_xs is_ys left =
      subst (λ r. PlaysOn (r.0) ys (x ∷ xs) enc.samples_out n)
        (sym (main_loop_pass-fills upsample g enc (x ∷ xs) is_act is_ok is_xs))
        (play-PlaysOn filled ys x xs n is_act
          (ap (λ b. b.waveform) (outbuf-set_outbuf-curr enc made) ∙ is_ys)
          (ap (λ b. b.waveform_samples) (outbuf-set_outbuf-curr enc made) ∙ left)
          (outbuf-set_outbuf enc made))
    where
      made : Outbuf S
      made = record { waveform = some (x ∷ xs); waveform_samples = length (x ∷ xs); result = pos 0 }

      filled : Encoder S
      filled = set_outbuf enc (other_idx enc.curr_outbuf_idx) made
