-- ===== src/Group/Words.antt =====
-- The infowords that the group functions put together, as sums of their fields.
use jmpxrds.Base.{
  ℕ, ◌+◌, ◌-◌, ◌*◌, ◌/◌, ◌%◌, ◌^◌, ◌<◌, bit_and, bit_or, List, [], ◌∷◌, get_or, zero, suc, ◌≡◌,
  refl, ap, ◌∙◌, arith, bit_and_mask, bit_and-step, bit_or_add, bit_or_add', ◌<<<◌,
}
use jmpxrds.Config.State.{State}
use jmpxrds.Config.Valid.{IsValid, AreChars}
use jmpxrds.Group.Clock.{Tm, tz_sign, tz_half_hours}
use jmpxrds.Base.Int.{ℤ}
use jmpxrds.Group.Fill.{text_word, sign_extend, tuning_word, clock_words}

pub char-lt : (xs : List ℕ) (i : ℕ) → AreChars xs → get_or xs i 0 < 128
char-lt [] i h = omega arith
char-lt (x ∷ xs) zero h = h.0
char-lt (x ∷ xs) (suc i) h = char-lt xs i h.1

-- Two neighbouring characters of a text.
abbrev pub two_chars : List ℕ → ℕ → ℕ
two_chars text i = get_or text i 0 * 256 + get_or text (i + 1) 0

sign_extend-char : (c : ℕ) → c < 128 → sign_extend c ≡ c
unfolding sign_extend
sign_extend-char c h = ground arith

pub text_word-eq : (text : List ℕ) (i : ℕ) → AreChars text → text_word text i ≡ two_chars text i
unfolding text_word
text_word-eq text i v =
    let c : ℕ = get_or text i 0 in
    let d : ℕ = get_or text (i + 1) 0 in
    let c-lt : c < 128 = char-lt text i v in
    let d-lt : d < 128 = char-lt text (i + 1) v in
    rw (sign_extend-char c c-lt, sign_extend-char d d-lt)
      (ap (λ (t : ℕ). t % 2 ^ 16) (bit_or_add 8 (c * 2 ^ 8 % 2 ^ 16) d (omega arith) (omega arith))
        ∙ omega arith)

-- The bit of the decoder information that goes with a segment of the PS.
abbrev pub di_bit : State → ℕ
di_bit st = st.di / 2 ^ (3 - st.ps_idx) % 2

abbrev pub tuning_sum : State → ℕ
tuning_sum st = st.ta * 16 + st.ms * 8 + di_bit st * 4 + st.ps_idx

pub tuning_word-eq : (st : State) → IsValid st → tuning_word st ≡ tuning_sum st
unfolding tuning_word
tuning_word-eq st v =
    rw
      (
        bit_and_mask 1 (st.di / 2 ^ (3 - st.ps_idx)),
        bit_and_mask 1 st.ms,
        bit_and_mask 1 st.ta,
        bit_or_add' 2 (di_bit st * 2 ^ 2) st.ps_idx (omega arith) (omega (arith, v.ps_place)),
        bit_or_add' 3 (st.ms % 2 * 2 ^ 3) (di_bit st * 4 + st.ps_idx) (omega arith)
            (omega (arith, v.ps_place)),
        bit_or_add' 4 (st.ta % 2 * 2 ^ 4) (st.ms % 2 * 8 + (di_bit st * 4 + st.ps_idx))
            (omega arith) (omega (arith, v.ps_place)),
      )
      (omega (arith, v.ps_place, v.ms_flag, v.ta_flag))

-- The group type, the version, the TP flag and the PTY of block 2.
abbrev pub header_sum : State → ℕ → ℕ → ℕ
header_sum st code version = code * 4096 + version * 2048 + st.tp * 1024 + st.pty * 32

abbrev pub header_word : State → ℕ → ℕ → ℕ
header_word st code version =
    bit_or
      (bit_or (bit_or (bit_and code 0xF <<< 12) (bit_and version 1 <<< 11))
        (bit_and st.tp 1 <<< 10))
      (bit_and st.pty 0x1f <<< 5)

pub header_word-eq :
    (st : State) (code version : ℕ)
    → IsValid st
    → code < 16
    → version < 2
    → header_word st code version ≡ header_sum st code version
header_word-eq st code version v h g =
    rw
      (
        bit_and_mask 4 code,
        bit_and_mask 1 version,
        bit_and_mask 1 st.tp,
        bit_and_mask 5 st.pty,
        bit_or_add 12 (code % 2 ^ 4 * 2 ^ 12) (version % 2 ^ 1 * 2 ^ 11) (omega arith)
            (omega arith),
        bit_or_add 11 (code % 2 ^ 4 * 2 ^ 12 + version % 2 ^ 1 * 2 ^ 11) (st.tp % 2 ^ 1 * 2 ^ 10)
            (omega arith) (omega arith),
        bit_or_add 10 (code % 2 ^ 4 * 2 ^ 12 + version % 2 ^ 1 * 2 ^ 11 + st.tp % 2 ^ 1 * 2 ^ 10)
            (st.pty % 2 ^ 5 * 2 ^ 5) (omega arith) (omega arith),
      )
      (omega (arith, v.tp_flag, v.pty_fits))

-- The fields of block 2 do not meet the bits that a group function adds.
pub or_header :
    (st : State) (code version x : ℕ)
    → IsValid st
    → code < 16
    → version < 2
    → x < 32
    → bit_or (header_sum st code version) x ≡ header_sum st code version + x
or_header st code version x v h g k = bit_or_add 5 (header_sum st code version) x (omega arith) k

pub header_sum-lt :
    (st : State) (code version : ℕ)
    → IsValid st
    → code < 16
    → version < 2
    → header_sum st code version + 31 < 2 ^ 16
header_sum-lt st code version v h g = omega (arith, v.tp_flag, v.pty_fits)

shifted_mask : (a : ℕ) → bit_and (a * 2 ^ 1) 0xFFFE ≡ a % 32768 * 2
shifted_mask a =
    let half : a * 2 ^ 1 / 2 ≡ a = omega arith in
    omega (
      arith,
      bit_and-step (a * 2 ^ 1) 0xFFFE,
      ap (λ (t : ℕ). bit_and t 0x7FFF) half,
      bit_and_mask 15 a,
    )

pub tz_sign-lt : (z : ℤ) → tz_sign z < 2
unfolding tz_sign
tz_sign-lt z = ground arith

pub clock_words-eq :
    (mjd : ℕ) (utc : Tm) (tz : ℤ)
    → clock_words mjd utc tz ≡ (
      mjd / 32768 % 4,
      mjd % 32768 * 2 + utc.hour / 16 % 2,
      utc.hour % 16 * 4096 + utc.min % 32 * 64 + tz_sign tz * 32 + tz_half_hours tz % 32,
    )
unfolding clock_words
clock_words-eq mjd utc tz =
    let s = tz_sign tz in
    let s-lt = tz_sign-lt tz in
    rw
      (
        bit_and_mask 2 (mjd / 2 ^ 15),
        shifted_mask mjd,
        bit_and_mask 1 (utc.hour / 2 ^ 4),
        bit_and_mask 4 utc.hour,
        bit_and_mask 5 utc.min,
        bit_and_mask 5 (tz_half_hours tz),
        bit_or_add 1 (mjd % 32768 * 2) (utc.hour / 2 ^ 4 % 2 ^ 1) (omega arith) (omega arith),
        bit_or_add 11 (utc.hour % 2 ^ 4 * 2 ^ 12) (utc.min % 2 ^ 5 * 2 ^ 6) (omega arith)
            (omega arith),
        bit_or_add 6 (utc.hour % 2 ^ 4 * 2 ^ 12 + utc.min % 2 ^ 5 * 2 ^ 6) (tz_sign tz * 2 ^ 5)
            (omega arith) (omega arith),
        bit_or_add 5 (utc.hour % 2 ^ 4 * 2 ^ 12 + utc.min % 2 ^ 5 * 2 ^ 6 + tz_sign tz * 2 ^ 5)
            (tz_half_hours tz % 2 ^ 5) (omega arith) (omega arith),
      )
      refl
