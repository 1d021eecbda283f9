-- ===== src/Modulation/Receiver.antt =====
-- A receiver of the signal: it reads one sample of each symbol, the tenth, whose sign is the
-- middle digit of the window, and undoes the differential coding.
use jmpxrds.Base.{
  ℕ, zero, suc, ◌+◌, ◌/◌, ◌%◌, ◌<◌, List, [], ◌∷◌, ◌++◌, length, get_or, drop, true, ◌==◌, ==_iff,
  if◌then◌else◌, all_below, all_below_sound, digit-lt, All, ◌≡◌, refl, sym, ap, ap₂, ◌∙◌, arith,
  get_or-append, drop-append,
}
use jmpxrds.Base.Int.{ℤ, pos, is_neg}
use jmpxrds.Block.{Block, generate_block}
use jmpxrds.Modulation.{Group, group_samples, generate_group_samples}
use jmpxrds.Modulation.Waveforms.{symbol_waveforms}
use jmpxrds.Modulation.Signal.{
  bits_of, message, next_window, last_window, waveform, signal, length-waveform, length-message,
}
use jmpxrds.Modulation.Buffer.{generate_group_samples-signal}

-- The digit that a symbol's samples carry.
abbrev pub slice_symbol : List ℤ → ℕ
slice_symbol xs = if is_neg (get_or xs 10 (pos 0)) then 0 else 1

unfoldable pub demodulate : ℕ → List ℤ → List ℕ
demodulate zero xs = []
demodulate (suc n) xs = slice_symbol xs ∷ demodulate n (drop 40 xs)

-- Each digit is the sum of two neighbours.
unfoldable pub undo_differential : ℕ → List ℕ → List ℕ
undo_differential d [] = []
undo_differential d (e ∷ es) = (d + e) % 2 ∷ undo_differential e es

unfoldable pub differences : List ℕ → List ℕ
unfolding undo_differential
differences [] = []
differences (d ∷ ds) = undo_differential d ds

-- The digits of `n` symbols; the last one shows in the first symbol of the next group.
unfoldable pub receive : ℕ → List ℤ → ℕ → List ℕ
unfolding demodulate differences
receive n xs next_symbol = differences (demodulate n xs ++ next_symbol ∷ [])

sign_table : all_below 8 (λ w. slice_symbol (get_or symbol_waveforms w []) == w / 2 % 2) ≡ true
unfolding all_below
sign_table = refl

slice-waveform : (w : ℕ) → slice_symbol (waveform w) ≡ w / 2 % 2
slice-waveform w =
    (==_iff _ _).0 (all_below_sound 8 _ (w % 8) sign_table (omega arith)) ∙ omega arith

slice-signal : (w : ℕ) (xs : List ℤ) → slice_symbol (waveform w ++ xs) ≡ w / 2 % 2
slice-signal w xs =
    ap (λ z. if is_neg z then 0 else 1)
      (get_or-append (waveform w) xs 10 (pos 0) (omega (arith, length-waveform w)))
    ∙ slice-waveform w

drop-signal : (w : ℕ) (xs : List ℤ) → drop 40 (waveform w ++ xs) ≡ xs
drop-signal w xs =
    ap (λ n. drop n (waveform w ++ xs)) (sym (length-waveform w)) ∙ drop-append (waveform w) xs

-- The digit that the window gains is the one that the next symbol carries.
middle-next_window : (w b : ℕ) → next_window w b / 2 % 2 ≡ w % 2
middle-next_window w b = omega arith

abbrev AreBits : List ℕ → Type 0
AreBits = All (λ b. b < 2)

receive-signal_from :
    (d : ℕ) (bs : List ℕ) (w : ℕ)
    → AreBits bs
    → undo_differential d (demodulate (length bs) (signal w bs) ++ (last_window w bs % 2) ∷ [])
      ≡ (d + w % 2) % 2 ∷ bs
unfolding undo_differential demodulate signal last_window
receive-signal_from d [] w h = refl
receive-signal_from d (b ∷ bs) w h =
    let v = next_window w b in
    let first : slice_symbol (waveform v ++ signal v bs) ≡ w % 2 =
      slice-signal v (signal v bs) ∙ middle-next_window w b in
    rw (first, drop-signal v (signal v bs))
      (ap (◌∷◌ ((d + w % 2) % 2)) (
        receive-signal_from (w % 2) bs v h.1
        ∙ ap (λ x. x ∷ bs) {x = (w % 2 + v % 2) % 2} {y = b} (omega (arith, h.0))))

pub receive-signal :
    (w : ℕ) (b : ℕ) (bs : List ℕ)
    → AreBits (b ∷ bs)
    → receive (suc (length bs)) (signal w (b ∷ bs)) (last_window w (b ∷ bs) % 2) ≡ b ∷ bs
unfolding receive signal last_window
receive-signal w b bs h =
    let v = next_window w b in
    let first : slice_symbol (waveform v ++ signal v bs) ≡ w % 2 =
      slice-signal v (signal v bs) ∙ middle-next_window w b in
    rw (first, drop-signal v (signal v bs))
      (receive-signal_from (w % 2) bs v h.1
        ∙ ap (λ x. x ∷ bs) {x = (w % 2 + v % 2) % 2} {y = b} (omega (arith, h.0)))

bits_of-AreBits : (n w : ℕ) → AreBits (bits_of n w)
unfolding bits_of
bits_of-AreBits zero w = tt
bits_of-AreBits (suc n) w = (digit-lt n w, bits_of-AreBits n w)

AreBits-append : (bs cs : List ℕ) → AreBits bs → AreBits cs → AreBits (bs ++ cs)
AreBits-append [] cs h g = g
AreBits-append (b ∷ bs) cs h g = (h.0, AreBits-append bs cs h.1 g)

message-AreBits : (bs : List Block) → AreBits (message bs)
unfolding message
message-AreBits [] = tt
message-AreBits (b ∷ bs) =
    AreBits-append (bits_of 26 (generate_block b)) (message bs)
      (bits_of-AreBits 26 (generate_block b)) (message-AreBits bs)

receive_bits :
    (w : ℕ) (bs : List ℕ)
    → AreBits bs
    → receive (length bs) (signal w bs) (last_window w bs % 2) ≡ bs
receive_bits w [] h = unfold receive in refl
receive_bits w (b ∷ bs) h = receive-signal w b bs h

-- Whatever the window was before, a receiver of the 4160 samples of a group of four blocks, which
-- learns the last digit from the symbol that follows, gets the 104 digits of the blocks, in order.
pub receive-generate_group_samples :
    (w : ℕ) (g : Group)
    → length g.blocks ≡ 4
    → length g.samples_buffer ≡ group_samples
    → let (w', g') = generate_group_samples w g in
      receive 104 g'.samples_buffer (w' % 2) ≡ message g.blocks
receive-generate_group_samples w g four full =
    let sent = generate_group_samples-signal w g four full in
    let count : 104 ≡ length (message g.blocks) = omega (arith, length-message g.blocks) in
    ap₂ (λ xs d. receive 104 xs (d % 2)) sent.1 sent.0
    ∙ ap (λ n. receive n (signal w (message g.blocks)) (last_window w (message g.blocks) % 2)) count
    ∙ receive_bits w (message g.blocks) (message-AreBits g.blocks)
