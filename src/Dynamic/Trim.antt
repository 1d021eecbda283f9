-- ===== src/Dynamic/Trim.antt =====
-- The loops of `rds_string_sanitize`, byte by byte.
use jmpxrds.Base.{
  ℕ, zero, suc, ◌+◌, ◌-◌, ◌<◌, ◌≤◌, List, [], ◌∷◌, ◌++◌, get_or, set, take, drop, length,
  Bool-cases, true, false, ◌==◌, ltb, if◌then◌else◌, ◌≡◌, ◌≢◌, ◌⊎◌, inl, inr, refl, sym, subst, ap,
  ◌∙◌, arith, get_or-set_self, get_or-set_ne, length-set, get_or-drop, length-drop,
}
use jmpxrds.Config.Text.{strnlen}
use jmpxrds.Dynamic.Sanitize.{is_space, trim_end, skip_spaces, move_down}

pub strnlen-ne : (s : List ℕ) (m i : ℕ) → i < strnlen s m → get_or s i 0 ≢ 0
unfolding strnlen
strnlen-ne s zero i h = absurd (omega (arith, h))
strnlen-ne [] (suc m) i h = absurd (omega (arith, h))
strnlen-ne (c ∷ s) (suc m) zero h = ground arith
strnlen-ne (c ∷ s) (suc m) (suc i) h = strnlen-ne s m i (ground arith)

pub strnlen-le-length : (s : List ℕ) (m : ℕ) → strnlen s m ≤ length s
unfolding strnlen
strnlen-le-length s zero = omega arith
strnlen-le-length [] (suc m) = omega arith
strnlen-le-length (c ∷ s) (suc m) = ground (arith, strnlen-le-length s m)

pub strnlen_end : (s : List ℕ) (m : ℕ) → (strnlen s m ≡ m) ⊎ (get_or s (strnlen s m) 0 ≡ 0)
unfolding strnlen
strnlen_end s zero = inl refl
strnlen_end [] (suc m) = inr refl
strnlen_end (c ∷ s) (suc m) = elim (Bool-cases (c == 0)) [
  | inl z ↦ rw z (inr (ground arith))
  | inr n ↦ rw n (ground (arith, strnlen_end s m))
]

pub strnlen_of :
    (s : List ℕ) (m n : ℕ)
    → n ≤ m
    → ((i : ℕ) → i < n → get_or s i 0 ≢ 0)
    → (n ≡ m) ⊎ (get_or s n 0 ≡ 0)
    → strnlen s m ≡ n
unfolding strnlen
strnlen_of s zero n h f e = omega arith
strnlen_of [] (suc m) zero h f e = refl
strnlen_of [] (suc m) (suc n) h f e = absurd (f 0 (omega arith) refl)
strnlen_of (c ∷ s) (suc m) zero h f e = ground arith
strnlen_of (c ∷ s) (suc m) (suc n) h f e =
    ground
      (arith, f 0, strnlen_of s m n (omega arith) (λ i g. f (suc i) (omega arith)) (ground arith))

-- What the first loop leaves, where `k` bytes stay of the first `c`.
pub record Trimmed (s : List ℕ) (c k : ℕ) (r : ℕ × List ℕ) : Type 0 where
  pub stays : r.0 ≡ k
  pub same_length : length (r.1) ≡ length s
  pub kept : (i : ℕ) → i < k → get_or (r.1) i 0 ≡ get_or s i 0
  pub cleared : (i : ℕ) → k ≤ i → i < c → get_or (r.1) i 0 ≡ 0
  pub beyond : (i : ℕ) → c ≤ i → get_or (r.1) i 0 ≡ get_or s i 0

abbrev pub AllSpaces : List ℕ → ℕ → ℕ → Type 0
AllSpaces s from to = (i : ℕ) → from ≤ i → i < to → is_space (get_or s i 0) ≡ true

AllSpaces-set : (s : List ℕ) (k c v : ℕ) → AllSpaces s k (suc c) → AllSpaces (set s c v) k c
AllSpaces-set s k c v h i a b =
    rw (get_or-set_ne s c i v 0 (λ e. omega (arith, e))) (h i a (omega arith))

Trimmed-step :
    (s : List ℕ) (c k : ℕ) (r : ℕ × List ℕ)
    → k ≤ c
    → c < length s
    → Trimmed (set s c 0) c k r
    → Trimmed s (suc c) k r
Trimmed-step s c k r le inside t = record {
  stays = t.stays;
  same_length = t.same_length ∙ length-set s c 0;
  kept = λ i h. t.kept i h ∙ get_or-set_ne s c i 0 0 (λ e. omega (arith, e));
  cleared = λ i a b. elim (Bool-cases (i == c)) [
    | inl e ↦
        t.beyond i (ground (arith, e))
        ∙ ap (λ (j : ℕ). get_or (set s c 0) j 0) (ground (arith, e))
        ∙ get_or-set_self s c 0 0 inside
    | inr n ↦ t.cleared i a (ground (arith, n))
  ];
  beyond = λ i a. t.beyond i (omega arith) ∙ get_or-set_ne s c i 0 0 (λ e. omega (arith, e));
}

Last-set :
    (s : List ℕ) (k c : ℕ)
    → k ≤ c
    → ((k ≡ 0) ⊎ (is_space (get_or s (k - 1) 0) ≡ false))
    → ((k ≡ 0) ⊎ (is_space (get_or (set s c 0) (k - 1) 0) ≡ false))
Last-set s k c le (inl z) = inl z
Last-set s zero c le (inr e) = inl refl
Last-set s (suc k) c le (inr e) =
    inr (ap is_space (get_or-set_ne s c (suc k - 1) 0 0 (λ e. omega (arith, e))) ∙ e)

pub trim_end-Trimmed :
    (c : ℕ) (s : List ℕ) (k : ℕ)
    → k ≤ c
    → c ≤ length s
    → AllSpaces s k c
    → ((k ≡ 0) ⊎ (is_space (get_or s (k - 1) 0) ≡ false))
    → Trimmed s c k (trim_end c s)
unfolding trim_end
trim_end-Trimmed zero s k le inside spaces last = record {
  stays = omega arith;
  same_length = refl;
  kept = λ i h. refl;
  cleared = λ i a b. absurd (omega arith);
  beyond = λ i a. refl;
}
trim_end-Trimmed (suc c) s k le inside spaces last = elim (Bool-cases (k == suc c)) [
  | inl e ↦ whole (ground (arith, e)) last
  | inr n ↦
      rw (spaces c (ground (arith, n)) (omega arith), trim_end)
        (Trimmed-step s c k (trim_end c (set s c 0)) (ground (arith, n)) (omega arith) (
          trim_end-Trimmed c (set s c 0) k (ground (arith, n)) (omega (arith, length-set s c 0))
            (AllSpaces-set s k c 0 spaces) (Last-set s k c (ground (arith, n)) last)))
]
  where
    same : Trimmed s (suc c) (suc c) (suc c, s)
    same = record {
      stays = refl;
      same_length = refl;
      kept = λ i h. refl;
      cleared = λ i a b. absurd (omega arith);
      beyond = λ i a. refl;
    }

    whole :
        k ≡ suc c
        → ((k ≡ 0) ⊎ (is_space (get_or s (k - 1) 0) ≡ false))
        → Trimmed s (suc c) k (trim_end (suc c) s)
    whole e (inl z) = absurd (omega (arith, e, z))
    whole e (inr l) =
        let here : is_space (get_or s c 0) ≡ false =
          ap (λ (j : ℕ). is_space (get_or s j 0)) (omega (arith, e)) ∙ l in
        rw (here, trim_end) (subst (λ j. Trimmed s (suc c) j (suc c, s)) (sym e) same)

-- The second loop, from `off` on, stops at the first byte `b` that is no space.
pub skip_spaces-eq :
    (left : ℕ) (s : List ℕ) (off b : ℕ)
    → off ≤ b
    → b ≤ off + left
    → AllSpaces s off b
    → is_space (get_or s b 0) ≡ false
    → skip_spaces left s off ≡ b
unfolding skip_spaces
skip_spaces-eq zero s off b le near spaces stop = omega arith
skip_spaces-eq (suc left) s off b le near spaces stop = elim (Bool-cases (off == b)) [
  | inl e ↦
      let here : is_space (get_or s off 0) ≡ false =
        ap (λ (j : ℕ). is_space (get_or s j 0)) (ground (arith, e)) ∙ stop in
      rw (here, skip_spaces) (ground (arith, e))
  | inr n ↦
      rw (spaces off (omega arith) (ground (arith, n)), skip_spaces)
        (skip_spaces-eq left s (off + 1) b (ground (arith, n)) (omega arith)
          (λ i x y. spaces i (omega arith) y) stop)
]

get_or-take_append :
    (n : ℕ) (xs ys : List ℕ) (i : ℕ)
    → n ≤ length xs
    → get_or (take n xs ++ ys) i 0 ≡ (if ltb i n then get_or xs i 0 else get_or ys (i - n) 0)
get_or-take_append zero xs ys i h = ground arith
get_or-take_append (suc n) [] ys i h = absurd (omega arith)
get_or-take_append (suc n) (x ∷ xs) ys zero h = ground arith
get_or-take_append (suc n) (x ∷ xs) ys (suc i) h =
    get_or-take_append n xs ys i (omega arith) ∙ ground arith

pub get_or-move_down :
    (off n : ℕ) (s : List ℕ) (i : ℕ)
    → off + n ≤ length s
    → get_or (move_down off n s) i 0 ≡ (if ltb i n then get_or s (off + i) 0 else get_or s i 0)
get_or-move_down off n s i h =
    get_or-take_append n (drop off s) (drop n s) i (omega (arith, length-drop off s))
    ∙ rw (get_or-drop off i s 0, get_or-drop n (i - n) s 0) (by_test (Bool-cases (ltb i n)))
  where
    by_test :
        ((ltb i n ≡ true) ⊎ (ltb i n ≡ false))
        → (if ltb i n then get_or s (off + i) 0 else get_or s (n + (i - n)) 0)
          ≡ (if ltb i n then get_or s (off + i) 0 else get_or s i 0)
    by_test (inl e) = rw e refl
    by_test (inr e) = rw e (ap (λ (j : ℕ). get_or s j 0) (ground (arith, e)))
