-- ===== src/Modulation/Buffer.antt =====
-- The loops of `rds_generate_group_samples` against `signal`: the buffer holds the signal of the
-- message, is filled to its last sample, and is never written outside.
use jmpxrds.Base.{
  ℕ, zero, suc, ◌+◌, ◌*◌, ◌≤◌, List, [], ◌∷◌, ◌++◌, length, set, get_or, drop, digit, ◌≡◌, refl, ap,
  ap₂, ◌∙◌, subst, arith, bit_and_mask, length-append, length-drop, set-append,
}
use mathlib.Core.List.{append_assoc, append-nil}
use jmpxrds.Base.Int.{ℤ}
use jmpxrds.Block.{Block, generate_block}
use jmpxrds.Modulation.{
  Modulator, Group, copy_at, push_bit, bits_loop, blocks_loop, generate_group_samples,
  group_samples,
}
use jmpxrds.Modulation.Waveforms.{symbol_waveforms}
use jmpxrds.Modulation.Signal.{
  bits_of, message, next_window, last_window, waveform, signal, last_window-append, signal-append,
  length-waveform, length-signal, length-message, window-push_bit,
}

module _ {ℓ} {A : Type ℓ} where
  -- A copy to the end of what is written keeps that, and goes over as much of the rest.
  copy_at-append :
      (xs p r : List A) (i : ℕ)
      → i ≡ length p
      → length xs ≤ length r
      → copy_at (p ++ r) i xs ≡ (p ++ xs) ++ drop (length xs) r
  unfolding copy_at
  copy_at-append [] p r i e h = rw append-nil
  copy_at-append (x ∷ xs) p [] i e h = absurd (omega arith)
  copy_at-append (x ∷ xs) p (y ∷ r) i e h =
      ap (λ b. copy_at b (suc i) xs) (ap (λ k. set (p ++ y ∷ r) k x) e ∙ set-append p r y x)
      ∙ copy_at-append xs (p ++ x ∷ []) r (suc i) (omega (arith, length-append p (x ∷ [])))
          (omega arith)
      ∙ ap (λ b. b ++ drop (length xs) r) (append_assoc p (x ∷ []) xs)

-- Where a modulator stands: `done` is written, and `left` symbols are still to come.
pub record Wrote (m : Modulator) (w : ℕ) (done : List ℤ) (left : ℕ) : Type 0 where
  pub rest : List ℤ
  pub window_is : m.window ≡ w
  pub buffer_is : m.buffer ≡ done ++ rest
  pub offset_is : m.buffer_offset ≡ length done
  pub room : length rest ≡ left * 40
  pub small : length done + left * 40 ≤ 4160

-- The buffer after one bit, in terms of the window after it.
buffer-push_bit :
    (blk j : ℕ) (m : Modulator)
    → (push_bit blk j m).buffer
      ≡ copy_at m.buffer m.buffer_offset (waveform (push_bit blk j m).window)
unfolding push_bit
buffer-push_bit blk j m =
    ap (λ k. copy_at m.buffer m.buffer_offset (get_or symbol_waveforms k [])) (bit_and_mask 3 _)

module _ (blk j : ℕ) (m : Modulator) (w : ℕ) (done : List ℤ) (left : ℕ)
    (v : Wrote m w done (suc left)) where
  abbrev next : ℕ
  next = next_window w (digit j blk)

  moved : (push_bit blk j m).window ≡ next
  moved = window-push_bit blk j m ∙ ap (λ x. next_window x (digit j blk)) v.window_is

  grown : length (done ++ waveform next) ≡ length done + 40
  grown = omega (arith, length-append done (waveform next), length-waveform next)

  written : (push_bit blk j m).buffer ≡ (done ++ waveform next) ++ drop 40 v.rest
  written =
      buffer-push_bit blk j m
      ∙ ap₂ (λ b x. copy_at b m.buffer_offset (waveform x)) v.buffer_is moved
      ∙ copy_at-append (waveform next) done v.rest m.buffer_offset v.offset_is
          (omega (arith, length-waveform next, v.room))
      ∙ ap (λ n. (done ++ waveform next) ++ drop n v.rest) (length-waveform next)

  offset-push_bit : (push_bit blk j m).buffer_offset ≡ length (done ++ waveform next)
  unfolding push_bit
  offset-push_bit = omega (arith, v.offset_is, v.small, grown)

  push_bit-Wrote : Wrote (push_bit blk j m) next (done ++ waveform next) left
  push_bit-Wrote = record {
    rest = drop 40 v.rest;
    window_is = moved;
    buffer_is = written;
    offset_is = offset-push_bit;
    room = omega (arith, length-drop 40 v.rest, v.room);
    small = omega (arith, v.small, grown);
  }

bits_loop-Wrote :
    (n blk : ℕ) (m : Modulator) (w : ℕ) (done : List ℤ) (left : ℕ)
    → Wrote m w done (n + left)
    → let bs = bits_of n blk in
      Wrote (bits_loop n blk m) (last_window w bs) (done ++ signal w bs) left
unfolding bits_loop bits_of last_window signal
bits_loop-Wrote zero blk m w done left v = rw append-nil (subst (Wrote m w done) (omega arith) v)
bits_loop-Wrote (suc j) blk m w done left v =
    let w' = next_window w (digit j blk) in
    let one = push_bit-Wrote blk j m w done (j + left) (subst (Wrote m w done) (omega arith) v) in
    rw (← append_assoc) (bits_loop-Wrote j blk (push_bit blk j m) w' (done ++ waveform w') left one)

blocks_loop-Wrote :
    (bs : List Block) (m : Modulator) (w : ℕ) (done : List ℤ) (left : ℕ)
    → Wrote m w done (length bs * 26 + left)
    → let bits = message bs in
      Wrote (blocks_loop bs m) (last_window w bits) (done ++ signal w bits) left
unfolding blocks_loop message
blocks_loop-Wrote [] m w done left v =
    unfold last_window signal in rw append-nil (subst (Wrote m w done) (omega arith) v)
blocks_loop-Wrote (b ∷ bs) m w done left v =
    let word = bits_of 26 (generate_block b) in
    let one =
      bits_loop-Wrote 26 (generate_block b) m w done (length bs * 26 + left)
        (subst (Wrote m w done) (omega arith) v) in
    rw (last_window-append, signal-append, ← append_assoc)
      (blocks_loop-Wrote bs (bits_loop 26 (generate_block b) m) (last_window w word)
        (done ++ signal w word) left one)

empty_rest : (xs : List ℤ) → length xs ≡ 0 → xs ≡ []
empty_rest [] e = refl
empty_rest (x ∷ xs) e = absurd (omega arith)

-- A group of four blocks with a buffer of `RDS_GROUP_SAMPLES` samples: the buffer becomes the
-- signal of the message from the window on, sample for sample, with nothing left over, and the
-- window that is kept for the next group is the last one of the message.
pub generate_group_samples-signal :
    (w : ℕ) (g : Group)
    → length g.blocks ≡ 4
    → length g.samples_buffer ≡ group_samples
    → let (w', g') = generate_group_samples w g in
      (w' ≡ last_window w (message g.blocks))
      × (g'.samples_buffer ≡ signal w (message g.blocks))
      × (length g'.samples_buffer ≡ group_samples)
unfolding generate_group_samples
generate_group_samples-signal w g four full =
    (end.window_is, filled, ap length filled ∙ length-signal w _ ∙ ap (λ n. n * 40) count)
  where
    start : Modulator
    start = record { window = w; buffer_offset = 0; buffer = g.samples_buffer }

    end :
        Wrote
          (blocks_loop g.blocks start)
          (last_window w (message g.blocks))
          ([] ++ signal w (message g.blocks))
          0
    end = blocks_loop-Wrote g.blocks start w [] 0 (record {
      rest = g.samples_buffer;
      window_is = refl;
      buffer_is = refl;
      offset_is = refl;
      room = omega arith;
      small = omega arith;
    })

    filled : (blocks_loop g.blocks start).buffer ≡ signal w (message g.blocks)
    filled =
        end.buffer_is
        ∙ ap (◌++◌ (signal w (message g.blocks))) (empty_rest end.rest (omega (arith, end.room)))
        ∙ append-nil _

    count : length (message g.blocks) ≡ 104
    count = omega (arith, length-message g.blocks)
