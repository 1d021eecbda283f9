-- ===== src/Block/Errors.antt =====
-- What the checkword of `rds_generate_block` is worth to a receiver: it is the only one that gives
-- the offset word, and a burst of errors of at most ten bits never leaves the syndrome unchanged.
use jmpxrds.Base.{
  ℕ, zero, suc, ◌+◌, ◌-◌, ◌*◌, ◌/◌, ◌^◌, ◌≤◌, ◌<◌, bit_xor, true, not, ◌==◌, ==_iff, all_below,
  all_below_sound, digit, ◌≡◌, ◌≢◌, refl, sym, ap, ◌∙◌, arith, double_pow, bit_xor_fields,
}
use native.Mathlib.Nat.{pow-suc, pow-le-pow_right, suc-add, zero-add, mul-one, mul_comm}
use jmpxrds.Base.Xor.{xor_cancel, xor_self}
use jmpxrds.Block.{Block, with_checkword, generate_block}
use jmpxrds.Block.Crc.{shift_in, divide, syndrome}
use jmpxrds.Block.Linear.{syndrome-xor, divide-lt}
use jmpxrds.Block.Checkword.{
  IsBlock, syndrome_short, generate_block_fields, with_checkword-lt, syndrome-generate_block,
}

-- A digit 0 at the low end is one more step of the division.
divide-double : (k w r : ℕ) → divide (suc k) (w * 2) r ≡ shift_in (divide k w r) 0
unfolding divide
divide-double zero w r = ap (shift_in r) (omega arith)
divide-double (suc k) w r =
    let half : w * 2 / 2 ≡ w = omega arith in
    ap (λ d. divide (suc k) (w * 2) (shift_in r d)) (ap (digit k) half)
    ∙ divide-double k w (shift_in r (digit k w))

-- A step of the division from a remainder other than 0 gives one other than 0.
nonzero_table : all_below 1023 (λ r. not (shift_in (suc r) 0 == 0)) ≡ true
unfolding all_below shift_in
nonzero_table = refl

shift_in-ne : (r : ℕ) → r < 1024 → r ≢ 0 → shift_in r 0 ≢ 0
shift_in-ne zero h ne = absurd (ne refl)
shift_in-ne (suc r) h ne = ground (arith, all_below_sound 1023 _ r nonzero_table)

high_digit : (j e : ℕ) → e < 2 ^ j → digit j e ≡ 0
high_digit zero e h = omega arith
high_digit (suc j) e h = high_digit j (e / 2) (omega (arith, pow-suc 2 j))

short_table : all_below 1024 (λ e. divide 10 e 0 == e) ≡ true
unfolding all_below divide shift_in
short_table = refl

pow_mono : (j : ℕ) → 1024 ≤ 2 ^ (j + 10)
pow_mono j = pow-le-pow_right {n = 2} (omega arith) {i = 10} {j = j + 10} (omega arith)

-- Leading zeros do nothing.
divide_short : (j e : ℕ) → e < 1024 → divide (j + 10) e 0 ≡ e
divide_short zero e h = (==_iff _ _).0 (all_below_sound 1024 _ e short_table h)
divide_short (suc j) e h =
    rw suc-add (step (high_digit (j + 10) e (omega (arith, pow_mono j))) ∙ divide_short j e h)
  where
    step : digit (j + 10) e ≡ 0 → divide (suc (j + 10)) e 0 ≡ divide (j + 10) e 0
    step z = unfold divide shift_in in ap (λ d. divide (j + 10) e (shift_in 0 d)) z

-- Shifting a word whose remainder is not 0 keeps it so.
divide_shifted-ne : (s k e : ℕ) → e < 1024 → divide k e 0 ≢ 0 → divide (s + k) (e * 2 ^ s) 0 ≢ 0
divide_shifted-ne zero k e h ne z = ne (sym same ∙ z)
  where
    same : divide (0 + k) (e * 2 ^ 0) 0 ≡ divide k e 0
    same = rw (zero-add, mul-one)
divide_shifted-ne (suc s) k e h ne z =
    shift_in-ne _ (divide-lt (s + k) (e * 2 ^ s) 0 (omega arith)) (divide_shifted-ne s k e h ne)
      (sym (same ∙ divide-double (s + k) (e * 2 ^ s) 0) ∙ z)
  where
    same : divide (suc s + k) (e * 2 ^ suc s) 0 ≡ divide (suc (s + k)) (e * 2 ^ s * 2) 0
    same = rw (suc-add, double_pow e s, mul_comm 2 (e * 2 ^ s))

syndrome_burst-ne : (s e : ℕ) → s ≤ 16 → e < 1024 → e ≢ 0 → syndrome (e * 2 ^ s) ≢ 0
unfolding syndrome
syndrome_burst-ne s e h small ne z =
    divide_shifted-ne s (26 - s) e small
      (λ q. ne (sym (divide_short (16 - s) e small) ∙ ap (λ n. divide n e 0) lower ∙ q))
      (ap (λ n. divide n (e * 2 ^ s) 0) {x = s + (26 - s)} {y = 26} (omega arith) ∙ z)
  where
    lower : 16 - s + 10 ≡ 26 - s
    lower = omega arith

-- Errors that lie within ten neighbouring bits of a sent block change its syndrome, which is then
-- not the offset word.
pub burst-detected :
    (b : Block) (s e : ℕ)
    → IsBlock b
    → b.checkword ≡ 0
    → s ≤ 16
    → e < 1024
    → e ≢ 0
    → syndrome (bit_xor (generate_block b) (e * 2 ^ s)) ≢ b.offset_word
burst-detected b s e v z h small ne q =
    syndrome_burst-ne s e h small ne
      (sym (xor_cancel b.offset_word _) ∙ ap (bit_xor b.offset_word) unchanged ∙ xor_self _)
  where
    unchanged : bit_xor b.offset_word (syndrome (e * 2 ^ s)) ≡ b.offset_word
    unchanged =
        ap (λ t. bit_xor t (syndrome (e * 2 ^ s))) (sym (syndrome-generate_block b v z).0)
        ∙ sym (syndrome-xor (generate_block b) (e * 2 ^ s))
        ∙ q

-- No other checkword beside the infoword has the offset word for a syndrome.
pub checkword_unique :
    (b : Block) (c : ℕ)
    → IsBlock b
    → b.checkword ≡ 0
    → c < 1024
    → syndrome (b.infoword * 1024 + c) ≡ b.offset_word
    → c ≡ (with_checkword b).checkword
checkword_unique b c v z h q =
    let w : ℕ = b.infoword * 1024 in
    let d : ℕ = (with_checkword b).checkword in
    let split = λ (x : ℕ) (p : x < 1024).
      ap syndrome (sym (bit_xor_fields 10 b.infoword x p))
      ∙ syndrome-xor w x
      ∙ ap (bit_xor (syndrome w)) (syndrome_short x p) in
    let sent : syndrome (w + d) ≡ b.offset_word =
      ap syndrome (sym (generate_block_fields b)) ∙ (syndrome-generate_block b v z).0 in
    sym (xor_cancel (syndrome w) c)
    ∙ ap (bit_xor (syndrome w)) (sym (split c h) ∙ q ∙ sym sent ∙ split d (with_checkword-lt b))
    ∙ xor_cancel (syndrome w) d

-- Of a sent block: errors that lie within ten neighbouring bits change its syndrome, which is then
-- not the offset word; and a checkword with which the block has the offset word for its syndrome is
-- the one that was sent.
pub errors-detected :
    (b : Block) (s e c : ℕ)
    → IsBlock b
    → b.checkword ≡ 0
    → s ≤ 16
    → e < 1024
    → e ≢ 0
    → c < 1024
    → syndrome (b.infoword * 1024 + c) ≡ b.offset_word
    → (syndrome (bit_xor (generate_block b) (e * 2 ^ s)) ≢ b.offset_word)
      × (c ≡ (with_checkword b).checkword)
errors-detected b s e c v z h small ne fits q =
    (burst-detected b s e v z h small ne, checkword_unique b c v z fits q)
