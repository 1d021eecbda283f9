-- ===== src/Rtp/BlocksizeLaws.antt =====
-- The block size of the FLAC encoder is the largest that fits.
use jmpxrds.Base.{
  ℕ, zero, suc, ltb→lt, lt→ltb, ◌+◌, ◌*◌, ◌/◌, ◌%◌, ◌^◌, ◌≤◌, ◌<◌, Bool-cases, false, ltb, leb,
  if◌then◌else◌, ◌≡◌, ◌⊎◌, inl, inr, refl, subst, arith,
}
use native.Mathlib.Nat.{pow-le-pow_right, mod-eq_of_lt}
use jmpxrds.Base.Int.{pos}
use jmpxrds.Rtp.Blocksize.{target, blocksize_loop, rtp_get_flac_blocksize}

-- Of the sizes 256 * 2 ^ j for j below `i`, `b` is the largest that is at most `t`, or 0.
pub record IsLargest (i t b : ℕ) : Type 0 where
  pub fits : b ≤ t
  pub a_size : (b ≡ 0) ⊎ ((j : ℕ) × (j < i) × (b ≡ 256 * 2 ^ j))
  pub largest : (j : ℕ) → j < i → 256 * 2 ^ j ≤ t → 256 * 2 ^ j ≤ b

-- A size is named by a lower index in the next pass too.
widen :
    (i b : ℕ)
    → (b ≡ 0) ⊎ ((j : ℕ) × (j < i) × (b ≡ 256 * 2 ^ j))
    → (b ≡ 0) ⊎ ((j : ℕ) × (j < i + 1) × (b ≡ 256 * 2 ^ j))
widen i b (inl e) = inl e
widen i b (inr (j, h, e)) = inr (j, omega (arith, h), e)

IsLargest-step :
    (i t b : ℕ)
    → IsLargest i t b
    → IsLargest (i + 1) t (if leb (256 * 2 ^ i) t then 256 * 2 ^ i else b)
IsLargest-step i t b v = elim (Bool-cases (leb (256 * 2 ^ i) t)) [
  | inl e ↦ rw e (record {
    fits = ground (arith, e);
    a_size = inr (i, omega arith, refl);
    largest = λ j h g.
        omega (arith, pow-le-pow_right {n = 2} (omega arith) {i = j} {j = i} (omega (arith, h)));
  })
  | inr n ↦ rw n (record {
    fits = v.fits;
    a_size = widen i b v.a_size;
    largest = λ j h g. v.largest j (below j h g n) g;
  })
]
  where
    same_index : (j : ℕ) → j < i + 1 → ltb j i ≡ false → j ≡ i
    same_index j h e = ground (arith, h, e)

    below : (j : ℕ) → j < i + 1 → 256 * 2 ^ j ≤ t → leb (256 * 2 ^ i) t ≡ false → j < i
    below j h g n = elim (Bool-cases (ltb j i)) [
      | inl e ↦ ltb→lt j i e
      | inr e ↦ absurd (ground (arith, n, subst (λ (k : ℕ). 256 * 2 ^ k ≤ t) (same_index j h e) g))
    ]

blocksize_loop-IsLargest :
    (left i t b : ℕ) → IsLargest i t b → IsLargest (i + left) t (blocksize_loop left i (pos t) b)
unfolding blocksize_loop
blocksize_loop-IsLargest zero i t b v = subst (λ (n : ℕ). IsLargest n t b) (omega arith) v
blocksize_loop-IsLargest (suc left) i t b v =
    subst
      (λ (n : ℕ).
        IsLargest n t
          (blocksize_loop left (i + 1) (pos t) (if leb (256 * 2 ^ i) t then 256 * 2 ^ i else b)))
      (omega arith) (blocksize_loop-IsLargest left (i + 1) t _ (IsLargest-step i t b v))

target-eq :
    (samplerate : ℕ) → samplerate * 105 < 2 ^ 31 → target samplerate ≡ pos (samplerate * 105 / 1000)
target-eq samplerate h =
    let whole : samplerate * 105 % 2 ^ 32 ≡ samplerate * 105 = mod-eq_of_lt (omega (arith, h)) in
    rw (whole, lt→ltb (samplerate * 105) (2 ^ 31) h) refl

-- For a sample rate below 2 ^ 31 / 105, the block size is the largest of the 16 sizes from 256 to
-- 256 * 2 ^ 15, each twice the one before, that lasts at most 105 ms, or 0 if even 256 samples last
-- longer.
pub rtp_get_flac_blocksize-IsLargest :
    (samplerate : ℕ)
    → samplerate * 105 < 2 ^ 31
    → IsLargest 16 (samplerate * 105 / 1000) (rtp_get_flac_blocksize samplerate)
unfolding rtp_get_flac_blocksize
rtp_get_flac_blocksize-IsLargest samplerate h = rw (target-eq samplerate h) (
    blocksize_loop-IsLargest 16 0 (samplerate * 105 / 1000) 0 (record {
      fits = omega arith;
      a_size = inl refl;
      largest = λ j g. absurd (omega (arith, g));
    }))
