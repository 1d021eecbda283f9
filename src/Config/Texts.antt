-- ===== src/Config/Texts.antt =====
-- The text that a setter stores, described without its loops, and what the getters give back.
use jmpxrds.Base.{
  ℕ, zero, suc, ◌+◌, ◌≤◌, ◌<◌, List, [], ◌∷◌, ◌++◌, some, length, get_or, set, take, replicate, All,
  ◌==◌, leb, if◌then◌else◌, ◌≡◌, refl, sym, ap, ap₂, ◌∙◌, ◌≢◌, arith, set-append, get_or-length,
  take_all, length-append, length-replicate, ◌&&◌, Bool-cases, inl, inr,
}
use mathlib.Core.List.{append_assoc}
use jmpxrds.Base.Int.{pos, minus}
use jmpxrds.Config.State.{State}
use jmpxrds.Config.Text.{
  strnlen, store_chars, keep_name_char, keep_rt_char, get_ps, set_ps, set_ptyn,
}

-- A printable character of the basic set, and 0 for any other byte.
unfoldable pub printable : ℕ → ℕ
printable c = if leb 0x20 c && leb c 0x7F then c else 0

-- The characters that are kept of a text, and 0 from its end to the end of the field.
unfoldable pub field_text : (ℕ → ℕ) → ℕ → List ℕ → List ℕ
field_text keep zero s = []
field_text keep (suc n) [] = replicate (suc n) 0
field_text keep (suc n) (c ∷ s) =
    if c == 0 then replicate (suc n) 0 else keep c ∷ field_text keep n s

pub strnlen-le : (s : List ℕ) (n : ℕ) → strnlen s n ≤ n
unfolding strnlen
strnlen-le s zero = omega arith
strnlen-le [] (suc n) = omega arith
strnlen-le (c ∷ s) (suc n) = ground (arith, strnlen-le s n)

pub length-field_text : (keep : ℕ → ℕ) (n : ℕ) (s : List ℕ) → length (field_text keep n s) ≡ n
unfolding field_text
length-field_text keep zero s = refl
length-field_text keep (suc n) [] = length-replicate (suc n) 0
length-field_text keep (suc n) (c ∷ s) =
    ground (arith, length-field_text keep n s, length-replicate {A = ℕ} n 0)

-- The loop, from the middle of a text and of a field.
store_chars-from :
    (keep : ℕ → ℕ) (p s q : List ℕ) (n i : ℕ)
    → i ≡ length p
    → i ≡ length q
    → store_chars keep (p ++ s) (strnlen s n) i (q ++ replicate n 0) ≡ q ++ field_text keep n s
unfolding strnlen store_chars field_text
store_chars-from keep p s q zero i e f = refl
store_chars-from keep p [] q (suc n) i e f = refl
store_chars-from keep p (c ∷ s) q (suc n) i e f = elim (Bool-cases (c == 0)) [
  | inl z ↦ rw z refl
  | inr z ↦ rw z (
      ap (λ d. store_chars keep (p ++ c ∷ s) (strnlen s n) (i + 1) d) stored
      ∙ ap (λ t. store_chars keep t (strnlen s n) (i + 1) ((q ++ keep c ∷ []) ++ replicate n 0))
          (sym (append_assoc p (c ∷ []) s))
      ∙ store_chars-from keep (p ++ c ∷ []) s (q ++ keep c ∷ []) n (i + 1)
          (omega (arith, length-append p (c ∷ []))) (omega (arith, length-append q (keep c ∷ [])))
      ∙ append_assoc q (keep c ∷ []) (field_text keep n s))
]
  where
    read : get_or (p ++ c ∷ s) i 0 ≡ c
    read = ap (λ k. get_or (p ++ c ∷ s) k 0) e ∙ get_or-length p (c ∷ s) 0

    stored :
        set (q ++ 0 ∷ replicate n 0) i (keep (get_or (p ++ c ∷ s) i 0))
        ≡ (q ++ keep c ∷ []) ++ replicate n 0
    stored =
        ap₂ (λ k v. set (q ++ 0 ∷ replicate n 0) k (keep v)) f read
        ∙ set-append q (replicate n 0) 0 (keep c)

pub store_chars-eq :
    (keep : ℕ → ℕ) (n : ℕ) (s : List ℕ)
    → store_chars keep s (strnlen s n) 0 (replicate n 0) ≡ field_text keep n s
store_chars-eq keep n s = store_chars-from keep [] s [] n 0 refl refl

-- On a byte, what the PS and the PTYN keep is what is printable.
pub keep_name_char-eq : (c : ℕ) → c < 256 → keep_name_char c ≡ printable c
unfolding keep_name_char printable
keep_name_char-eq c h = ground arith

-- So does the RT, but for the byte 0x7F.
pub keep_rt_char-eq : (c : ℕ) → c < 256 → keep_rt_char c ≡ (if c == 0x7F then 0 else printable c)
unfolding keep_rt_char printable
keep_rt_char-eq c h = ground arith

abbrev pub AreBytes : List ℕ → Type 0
AreBytes = All (λ c. c < 256)

field_text-ext :
    (f g : ℕ → ℕ) (n : ℕ) (s : List ℕ)
    → ((c : ℕ) → c < 256 → f c ≡ g c)
    → AreBytes s
    → field_text f n s ≡ field_text g n s
unfolding field_text
field_text-ext f g zero s h v = refl
field_text-ext f g (suc n) [] h v = refl
field_text-ext f g (suc n) (c ∷ s) h v = elim (Bool-cases (c == 0)) [
  | inl z ↦ rw z refl
  | inr z ↦ rw z (ap₂ ◌∷◌ (h c v.0) (field_text-ext f g n s h v.1))
]

pub name_field :
    (s : List ℕ)
    → AreBytes s
    → (n : ℕ)
    → store_chars keep_name_char s (strnlen s n) 0 (replicate n 0) ≡ field_text printable n s
name_field s v n =
    store_chars-eq keep_name_char n s
    ∙ field_text-ext keep_name_char printable n s keep_name_char-eq v

-- `rds_set_ps` of a text that is not empty stores its printable characters, up to eight, with 0 in
-- the place of each other byte and after the end; it restarts the transmission at the first
-- segment, returns 0 and changes nothing else. An empty text is refused with -2, and nothing
-- changes.
pub set_ps-eq :
    (st : State) (s : List ℕ)
    → AreBytes s
    → set_ps (some st) (some s) ≡ (
        if strnlen s 8 == 0
        then (some st, minus 2)
        else (some (record st { ps = field_text printable 8 s; ps_set = 1; ps_idx = 0 }), pos 0))
unfolding set_ps
set_ps-eq st s v = ground (arith, strnlen-le s 8, name_field s v 8)

-- `rds_set_ptyn` of an empty text clears the field and its flag. Of any other text it stores the
-- printable characters, up to eight, restarts at the first segment, and flips the A/B flag exactly
-- if a text was set before. It always returns 0 and changes nothing else.
pub set_ptyn-eq :
    (st : State) (s : List ℕ)
    → AreBytes s
    → set_ptyn (some st) (some s) ≡ (
        if strnlen s 8 == 0
        then (some (record st { ptyn_set = 0; ptyn = replicate 8 0 }), pos 0)
        else (
          some (record st {
            ptyn = field_text printable 8 s;
            ptyn_set = 1;
            ptyn_idx = 0;
            ptyn_flush =
                if st.ptyn_set == 0 then st.ptyn_flush else (if st.ptyn_flush == 0 then 1 else 0);
          }),
          pos 0,
        ))
unfolding set_ptyn
set_ptyn-eq st s v = ground (arith, strnlen-le s 8, name_field s v 8)

take-field :
    (keep : ℕ → ℕ) (n : ℕ) (s : List ℕ) → take n (field_text keep n s) ≡ field_text keep n s
take-field keep n s =
    ap (λ k. take k (field_text keep n s)) (sym (length-field_text keep n s)) ∙ take_all _

-- What `rds_get_ps` gives back of a text that `rds_set_ps` has stored: its printable characters in
-- a field of eight, and a final 0.
pub get_ps-set_ps :
    (st : State) (s : List ℕ)
    → AreBytes s
    → strnlen s 8 ≢ 0
    → get_ps (set_ps (some st) (some s)).0 ≡ some (field_text printable 8 s ++ 0 ∷ [])
unfolding get_ps
get_ps-set_ps st s v ne = ground (arith, set_ps-eq st s v, take-field printable 8 s)

-- `rds_set_ps` of a text that is not empty stores its printable characters, up to eight, with 0 in
-- the place of each other byte and after the end, restarts the transmission at the first segment,
-- returns 0 and changes nothing else; `rds_get_ps` then gives this field and a final 0. An empty text
-- is refused with -2, nothing changes, and what there was is given back.
pub get_ps-set_ps-eq :
    (st : State) (s : List ℕ)
    → AreBytes s
    → (set_ps (some st) (some s) ≡ (
        if strnlen s 8 == 0
        then (some st, minus 2)
        else (some (record st { ps = field_text printable 8 s; ps_set = 1; ps_idx = 0 }), pos 0)))
      × (get_ps (set_ps (some st) (some s)).0 ≡ (
          if strnlen s 8 == 0 then get_ps (some st) else some (field_text printable 8 s ++ 0 ∷ [])))
unfolding get_ps
get_ps-set_ps-eq st s v =
    (set_ps-eq st s v, ground (arith, set_ps-eq st s v, take-field printable 8 s))
