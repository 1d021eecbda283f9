-- ===== src/Config/Valid.antt =====
-- The invariant of the encoder's state: every field within its bits, every text of its full length
-- and of seven-bit characters, every index within its text. Every setter keeps it.
use jmpxrds.Base.{
  ℕ, zero, suc, ◌+◌, ◌%◌, ◌^◌, ◌≤◌, ◌<◌, List, [], ◌∷◌, Option, none, some, Bool, Bool-cases, inl,
  inr, length, get_or, set, replicate, All, ◌==◌, ltb, ◌≡◌, ◌∙◌, refl, arith, bit_and_mask,
  length-set,
}
use jmpxrds.Config.State.{
  State, Setting, set_pi, set_ecc, set_lic, set_pty, set_ta, set_tp, set_ms, set_di,
}
use jmpxrds.Config.Text.{
  strnlen, store_chars, keep_name_char, keep_rt_char, pad_rt, set_ps, set_ptyn, set_rt,
}
use jmpxrds.Config.Segments.{length-pad_rt}

abbrev pub AreChars : List ℕ → Type 0
AreChars = All (λ c. c < 128)

pub record IsValid (st : State) : Type 0 where
  pub pi_fits : st.pi < 2 ^ 16
  pub ecc_fits : st.ecc < 2 ^ 8
  pub ecc_flag : st.ecc_set < 2
  pub lic_fits : st.lic < 2 ^ 12
  pub lic_flag : st.lic_set < 2
  pub pty_fits : st.pty < 2 ^ 5
  pub ta_flag : st.ta < 2
  pub tp_flag : st.tp < 2
  pub ms_flag : st.ms < 2
  pub di_fits : st.di < 2 ^ 4
  pub ps_length : length st.ps ≡ 8
  pub ps_chars : AreChars st.ps
  pub ps_flag : st.ps_set < 2
  pub ps_place : st.ps_idx < 4
  pub ptyn_length : length st.ptyn ≡ 8
  pub ptyn_chars : AreChars st.ptyn
  pub ptyn_flag : st.ptyn_set < 2
  pub ptyn_place : st.ptyn_idx < 2
  pub ptyn_toggle : st.ptyn_flush < 2
  pub rt_length : length st.rt ≡ 64
  pub rt_chars : AreChars st.rt
  pub rt_flag : st.rt_set < 2
  pub rt_place : st.rt_idx < 16
  pub rt_count : st.rt_segments < 16
  pub rt_toggle : st.rt_flush < 2
  pub af_length : length st.af_data ≡ 12
  pub af_bytes : All (λ b. b < 256) st.af_data
  pub af_place : (st.af_idx % 2 ≡ 0) × (st.af_idx ≤ 10)

-- The setters, with the arguments of their callers.
pub data Request : Type 0 where
  pi ecc lic pty ta tp ms di : ℕ → Request
  ps ptyn : Option (List ℕ) → Request
  rt : Option (List ℕ) → Bool → Request

-- A caller's argument fits the parameter's type.
abbrev pub Fits : Request → Type 0
Fits (pi n) = n < 2 ^ 16
Fits (ecc n) = n < 2 ^ 8
Fits (lic n) = n < 2 ^ 16
Fits _ = Unit

unfoldable pub apply : Request → Option State → Setting
apply (pi n) st = set_pi st n
apply (ecc n) st = set_ecc st n
apply (lic n) st = set_lic st n
apply (pty n) st = set_pty st n
apply (ta n) st = set_ta st n
apply (tp n) st = set_tp st n
apply (ms n) st = set_ms st n
apply (di n) st = set_di st n
apply (ps s) st = set_ps st s
apply (ptyn s) st = set_ptyn st s
apply (rt s flush) st = set_rt st s flush

-- The state behind a pointer that is not NULL is valid.
abbrev pub Holds : Option State → Type 0
Holds none = ⊥
Holds (some st) = IsValid st

AreChars-set : (xs : List ℕ) (i c : ℕ) → AreChars xs → c < 128 → AreChars (set xs i c)
AreChars-set [] i c h g = tt
AreChars-set (x ∷ xs) zero c h g = (g, h.1)
AreChars-set (x ∷ xs) (suc i) c h g = (h.0, AreChars-set xs i c h.1 g)

pub AreChars-replicate : (n : ℕ) → AreChars (replicate n 0)
AreChars-replicate zero = tt
AreChars-replicate (suc n) = (omega arith, AreChars-replicate n)

keep_name_char-lt : (c : ℕ) → keep_name_char c < 128
unfolding keep_name_char
keep_name_char-lt c = ground arith

keep_rt_char-lt : (c : ℕ) → keep_rt_char c < 128
unfolding keep_rt_char
keep_rt_char-lt c = ground arith

module _ (keep : ℕ → ℕ) (small : (c : ℕ) → keep c < 128) (s : List ℕ) where
  AreChars-store_chars : (n i : ℕ) (d : List ℕ) → AreChars d → AreChars (store_chars keep s n i d)
  unfolding store_chars
  AreChars-store_chars zero i d h = h
  AreChars-store_chars (suc n) i d h =
      AreChars-store_chars n (i + 1) _ (AreChars-set d i _ h (small (get_or s i 0)))

length-store_chars :
    (keep : ℕ → ℕ) (s : List ℕ) (n i : ℕ) (d : List ℕ)
    → length (store_chars keep s n i d) ≡ length d
unfolding store_chars
length-store_chars keep s zero i d = refl
length-store_chars keep s (suc n) i d =
    length-store_chars keep s n (i + 1) _ ∙ length-set d i (keep (get_or s i 0))

AreChars-pad_rt : (f i : ℕ) (d : List ℕ) → AreChars d → AreChars (pad_rt f i d).1
unfolding pad_rt
AreChars-pad_rt zero i d h = h
AreChars-pad_rt (suc f) i d h =
    ground (arith, AreChars-pad_rt f (i + 1) (set d i 0x20), AreChars-set d i 0x20 h (omega arith))

set_ps-IsValid : (st : State) (s : Option (List ℕ)) → IsValid st → Holds (set_ps (some st) s).0
unfolding set_ps
set_ps-IsValid st none v = v
set_ps-IsValid st (some s) v = ground (
  arith,
  length-store_chars keep_name_char s (strnlen s 8) 0 (replicate 8 0),
  AreChars-store_chars keep_name_char keep_name_char-lt s (strnlen s 8) 0 (replicate 8 0),
  AreChars-replicate 8,
)

set_ptyn-IsValid : (st : State) (s : Option (List ℕ)) → IsValid st → Holds (set_ptyn (some st) s).0
unfolding set_ptyn
set_ptyn-IsValid st none v = v
set_ptyn-IsValid st (some s) v = ground (
  arith,
  length-store_chars keep_name_char s (strnlen s 8) 0 (replicate 8 0),
  AreChars-store_chars keep_name_char keep_name_char-lt s (strnlen s 8) 0 (replicate 8 0),
  AreChars-replicate 8,
)

-- The text that `rds_set_rt` stores.
module _ (s : List ℕ) where
  abbrev stored : List ℕ
  stored = store_chars keep_rt_char s (strnlen s 64) 0 (replicate 64 0)

  stored-AreChars : AreChars (pad_rt 3 (strnlen s 64) stored).1
  stored-AreChars = AreChars-pad_rt 3 (strnlen s 64) stored (
      AreChars-store_chars keep_rt_char keep_rt_char-lt s (strnlen s 64) 0 _
        (AreChars-replicate 64))

  length-stored : length (pad_rt 3 (strnlen s 64) stored).1 ≡ 64
  length-stored =
      length-pad_rt 3 (strnlen s 64) stored
      ∙ length-store_chars keep_rt_char s (strnlen s 64) 0 (replicate 64 0)

rt_state-IsValid :
    (st : State) (text : List ℕ) (set segments flush : ℕ)
    → IsValid st
    → AreChars text
    → length text ≡ 64
    → set < 2
    → segments < 16
    → flush < 2
    → IsValid (record st {
      rt = text;
      rt_set = set;
      rt_idx = 0;
      rt_segments = segments;
      rt_flush = flush;
    })
rt_state-IsValid st text set segments flush v c l s n f = ground arith

set_rt-IsValid :
    (st : State) (s : Option (List ℕ)) (flush : Bool)
    → IsValid st
    → Holds (set_rt (some st) s flush).0
unfolding set_rt
set_rt-IsValid st none flush v = v
set_rt-IsValid st (some s) flush v = elim (Bool-cases (ltb 64 (strnlen s 64))) [
  | inl long ↦ rw long v
  | inr short ↦ elim (Bool-cases (strnlen s 64 == 0)) [
    | inl empty ↦ rw (short, empty) (ground (arith, AreChars-replicate 64))
    | inr full ↦
        rw (short, full)
          (rt_state-IsValid st _ 1 _ _ v (stored-AreChars s) (length-stored s) (omega arith)
            (omega arith) (ground (arith, v.rt_toggle)))
  ]
]

-- Every setter, on a valid state and an argument that fits its parameter, leaves a valid state,
-- whether it accepts the argument or refuses it.
pub apply-IsValid : (r : Request) (st : State) → Fits r → IsValid st → Holds (apply r (some st)).0
unfolding apply
apply-IsValid (pi n) st h v = unfold set_pi in ground arith
apply-IsValid (ecc n) st h v = unfold set_ecc in ground arith
apply-IsValid (lic n) st h v = unfold set_lic in ground arith
apply-IsValid (pty n) st h v = unfold set_pty in ground arith
apply-IsValid (ta n) st h v = unfold set_ta in ground (arith, bit_and_mask 1 n)
apply-IsValid (tp n) st h v = unfold set_tp in ground (arith, bit_and_mask 1 n)
apply-IsValid (ms n) st h v = unfold set_ms in ground (arith, bit_and_mask 1 n)
apply-IsValid (di n) st h v = unfold set_di in ground (arith, bit_and_mask 4 n)
apply-IsValid (ps s) st h v = set_ps-IsValid st s v
apply-IsValid (ptyn s) st h v = set_ptyn-IsValid st s v
apply-IsValid (rt s flush) st h v = set_rt-IsValid st s flush v
