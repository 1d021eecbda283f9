-- ===== src/Resource.antt =====
-- What a pointer to something that is taken and given back can be: the free of malloc, and the like of
-- FFTW, libsoxr and JACK.
use jmpxrds.Base.{Bool, true, false, ◌||◌, List, [], ◌∷◌, ◌++◌, map, ◌≡◌, refl, ap, ap₂, ◌∙◌}

pub data Pointer : Type 0 where
  null : Pointer
  live : Pointer
  freed : Pointer
  freed_twice : Pointer

-- The result of an allocation.
abbrev pub allocate : Bool → Pointer
allocate true = live
allocate false = null

-- A free of what is not NULL, which leaves the pointer as it is.
abbrev pub give_back : Pointer → Pointer
give_back null = null
give_back live = freed
give_back freed = freed_twice
give_back freed_twice = freed_twice

abbrev pub is_live : Pointer → Bool
is_live live = true
is_live null = false
is_live freed = false
is_live freed_twice = false

abbrev pub is_not_live : Pointer → Bool
is_not_live live = false
is_not_live null = true
is_not_live freed = true
is_not_live freed_twice = true

abbrev pub is_dangling : Pointer → Bool
is_dangling freed = true
is_dangling freed_twice = true
is_dangling null = false
is_dangling live = false

abbrev pub is_freed_twice : Pointer → Bool
is_freed_twice freed_twice = true
is_freed_twice freed = false
is_freed_twice null = false
is_freed_twice live = false

abbrev pub is_taken : Pointer → Bool
is_taken null = false
is_taken live = true
is_taken freed = true
is_taken freed_twice = true

abbrev pub any : (Pointer → Bool) → List Pointer → Bool
any p [] = false
any p (x ∷ xs) = p x || any p xs

any-map :
    (p q : Pointer → Bool)
    → ((x : Pointer) → p (give_back x) ≡ q x)
    → (xs : List Pointer) → any p (map give_back xs) ≡ any q xs
any-map p q h [] = refl
any-map p q h (x ∷ xs) = ap₂ (λ a b. a || b) (h x) (any-map p q h xs)

any_never : (xs : List Pointer) → any (λ x. false) xs ≡ false
any_never [] = refl
any_never (x ∷ xs) = any_never xs

-- After everything is released nothing is live.
pub give_back-not_live : (xs : List Pointer) → any is_live (map give_back xs) ≡ false
give_back-not_live xs = any-map is_live (λ x. false) each xs ∙ any_never xs
  where
    each : (x : Pointer) → is_live (give_back x) ≡ false
    each null = refl
    each live = refl
    each freed = refl
    each freed_twice = refl

-- What is freed twice is what was dangling.
pub give_back-freed_twice :
    (xs : List Pointer) → any is_freed_twice (map give_back xs) ≡ any is_dangling xs
give_back-freed_twice = any-map is_freed_twice is_dangling each
  where
    each : (x : Pointer) → is_freed_twice (give_back x) ≡ is_dangling x
    each null = refl
    each live = refl
    each freed = refl
    each freed_twice = refl

-- What dangles after everything is released is what was taken.
pub give_back-dangling : (xs : List Pointer) → any is_dangling (map give_back xs) ≡ any is_taken xs
give_back-dangling = any-map is_dangling is_taken each
  where
    each : (x : Pointer) → is_dangling (give_back x) ≡ is_taken x
    each null = refl
    each live = refl
    each freed = refl
    each freed_twice = refl

pub any_append :
    (p : Pointer → Bool) (xs ys : List Pointer) → any p (xs ++ ys) ≡ (any p xs || any p ys)
any_append p [] ys = refl
any_append p (x ∷ xs) ys =
    ap (λ b. p x || b) (any_append p xs ys) ∙ or_assoc (p x) (any p xs) (any p ys)
  where
    or_assoc : (a b c : Bool) → (a || (b || c)) ≡ ((a || b) || c)
    or_assoc true b c = refl
    or_assoc false b c = refl
