-- ===== src/Modulation/Signal.antt =====
-- The signal that a stream of bits stands for, and the loops of `rds_generate_group_samples`
-- against it: they fill the buffer exactly, and write nowhere else.
use jmpxrds.Base.{
  ℕ, zero, suc, ◌+◌, ◌*◌, ◌%◌, ◌^◌, bit_and, bit_or, bit_xor, List, [], ◌∷◌, ◌++◌, length, get_or,
  ◌==◌, if◌then◌else◌, digit, digit-lt, ◌≡◌, refl, sym, ap, ap₂, ◌∙◌, arith, bit_test,
  bit_xor_digits, bit_and_mask, bit_or_fields, length-append, ◌<<<◌, all_below, all_below_sound,
  ==_iff, true,
}
use mathlib.Core.List.{append_assoc}
use jmpxrds.Base.Int.{ℤ}
use jmpxrds.Block.{Block, generate_block}
use jmpxrds.Modulation.{Modulator, push_bit}
use jmpxrds.Modulation.Waveforms.{symbol_waveforms}

-- The digits of a word below `n`, highest first: the order of transmission.
unfoldable pub bits_of : ℕ → ℕ → List ℕ
bits_of zero w = []
bits_of (suc n) w = digit n w ∷ bits_of n w

-- The message of a group.
unfoldable pub message : List Block → List ℕ
unfolding bits_of
message [] = []
message (b ∷ bs) = bits_of 26 (generate_block b) ++ message bs

-- The window after one more bit: its new digit is the sum of the bit and the last digit.
abbrev pub next_window : ℕ → ℕ → ℕ
next_window w b = w * 2 % 256 + (b + w % 2) % 2

unfoldable pub last_window : ℕ → List ℕ → ℕ
last_window w [] = w
last_window w (b ∷ bs) = last_window (next_window w b) bs

abbrev pub waveform : ℕ → List ℤ
waveform w = get_or symbol_waveforms (w % 8) []

unfoldable pub signal : ℕ → List ℕ → List ℤ
signal w [] = []
signal w (b ∷ bs) = waveform (next_window w b) ++ signal (next_window w b) bs

pub last_window-append :
    (w : ℕ) (bs cs : List ℕ) → last_window w (bs ++ cs) ≡ last_window (last_window w bs) cs
unfolding last_window
last_window-append w [] cs = refl
last_window-append w (b ∷ bs) cs = last_window-append (next_window w b) bs cs

pub signal-append :
    (w : ℕ) (bs cs : List ℕ) → signal w (bs ++ cs) ≡ signal w bs ++ signal (last_window w bs) cs
unfolding signal last_window
signal-append w [] cs = refl
signal-append w (b ∷ bs) cs =
    ap (◌++◌ (waveform (next_window w b))) (signal-append (next_window w b) bs cs)
    ∙ sym (append_assoc (waveform (next_window w b)) _ _)

length_table : all_below 8 (λ w. length (get_or symbol_waveforms w []) == 40) ≡ true
unfolding all_below
length_table = refl

pub length-waveform : (w : ℕ) → length (waveform w) ≡ 40
length-waveform w = (==_iff _ _).0 (all_below_sound 8 _ (w % 8) length_table (omega arith))

pub length-signal : (w : ℕ) (bs : List ℕ) → length (signal w bs) ≡ length bs * 40
unfolding signal
length-signal w [] = refl
length-signal w (b ∷ bs) = omega (
  arith,
  length-append (waveform (next_window w b)) (signal (next_window w b) bs),
  length-waveform (next_window w b),
  length-signal (next_window w b) bs,
)

pub length-bits_of : (n w : ℕ) → length (bits_of n w) ≡ n
unfolding bits_of
length-bits_of zero w = refl
length-bits_of (suc n) w = ap suc (length-bits_of n w)

pub length-message : (bs : List Block) → length (message bs) ≡ length bs * 26
unfolding message
length-message [] = refl
length-message (b ∷ bs) = omega (
  arith,
  length-append (bits_of 26 (generate_block b)) (message bs),
  length-bits_of 26 (generate_block b),
  length-message bs,
)

raw_digit : (j blk : ℕ) → (if bit_and blk (1 <<< j) == 0 then 0 else 1) ≡ digit j blk
raw_digit j blk = rw (bit_test j blk) (ground (arith, digit-lt j blk))

-- What the inner loop does to the window, as arithmetic.
pub window-push_bit :
    (blk j : ℕ) (m : Modulator) → (push_bit blk j m).window ≡ next_window m.window (digit j blk)
unfolding push_bit
window-push_bit blk j m =
    let w = m.window in
    let d = digit j blk in
    let raw : (if bit_and blk (1 <<< j) == 0 then 0 else 1) ≡ d = raw_digit j blk in
    let bit : bit_xor (if bit_and blk (1 <<< j) == 0 then 0 else 1) (bit_and w 1)
        ≡ (d + w % 2) % 2 =
      ap₂ bit_xor raw (bit_and_mask 1 w)
      ∙ bit_xor_digits d (w % 2) (digit-lt j blk) (omega arith) in
    let even : w * 2 % 256 ≡ w % 128 * 2 ^ 1 = omega arith in
    ap₂ bit_or even bit ∙ bit_or_fields 1 (w % 128) ((d + w % 2) % 2) (omega arith) ∙ omega arith
