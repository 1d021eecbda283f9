-- ===== src/Group/Layout.antt =====
-- The blocks of every group that `rds_generate_group` produces, and which calls it refuses.
use jmpxrds.Base.{
  ℕ, ◌+◌, ◌*◌, ◌%◌, ◌^◌, ◌<◌, bit_or, List, [], ◌∷◌, map, false, ltb, leb, ◌==◌, if◌then◌else◌, ◌≡◌,
  refl, ap, ◌∙◌, arith, u16,
}
use native.Mathlib.Nat.{mod-eq_of_lt}
use jmpxrds.Base.Int.{ℤ, pos, is_neg}
use jmpxrds.Block.{Block, with_checkword}
use jmpxrds.Modulation.{Group, with_checkwords, generate_group_samples}
use jmpxrds.Config.State.{State}
use jmpxrds.Config.Valid.{IsValid, AreChars}
use jmpxrds.Group.{start_group, fill_group, generate_group}
use jmpxrds.Group.Clock.{Time}
use jmpxrds.Group.Fill.{Filled, Statics, empty_group, text_word, next_ps_idx, generate_group_0}
use jmpxrds.Group.Words.{
  two_chars, text_word-eq, tuning_sum, tuning_word-eq, header_sum, header_word, header_word-eq,
  or_header, header_sum-lt, char-lt,
}

abbrev pub infowords : Group → List ℕ
infowords g = map (λ b. b.infoword) g.blocks

abbrev pub offsets : Group → List ℕ
offsets g = map (λ b. b.offset_word) g.blocks

infowords-with_checkwords :
    (bs : List Block) → map (λ b. b.infoword) (with_checkwords bs) ≡ map (λ b. b.infoword) bs
unfolding with_checkwords with_checkword
infowords-with_checkwords [] = refl
infowords-with_checkwords (b ∷ bs) = ap (◌∷◌ b.infoword) (infowords-with_checkwords bs)

offsets-with_checkwords :
    (bs : List Block) → map (λ b. b.offset_word) (with_checkwords bs) ≡ map (λ b. b.offset_word) bs
unfolding with_checkwords with_checkword
offsets-with_checkwords [] = refl
offsets-with_checkwords (b ∷ bs) = ap (◌∷◌ b.offset_word) (offsets-with_checkwords bs)

-- What the scheduler reads of the static variables, and the variant of group 1.
abbrev pub counters : Statics → ℕ × ℤ × ℕ × ℕ
counters s = (s.vcode, s.groups_per_sec_counter, s.groups_per_min_counter, s.ptyn_cnt)

-- A call that fills the group goes on to its samples, which leaves the two words of each block.
pub record Generated (filled result : Filled) : Type 0 where
  pub same_state : result.st ≡ filled.st
  pub same_infowords : infowords result.group ≡ infowords filled.group
  pub same_offsets : offsets result.group ≡ offsets filled.group
  pub same_counters : counters result.statics ≡ counters filled.statics
  pub returns : result.ret ≡ pos 0

pub generate_group-Generated :
    (st : State) (statics : Statics) (time : Time) (g : Group) (code version : ℕ)
    → version < 2
    → is_neg (fill_group st statics time (start_group st code version) code version).ret ≡ false
    → Generated
        (fill_group st statics time (start_group st code version) code version)
        (generate_group st statics time g code version)
unfolding generate_group generate_group_samples
generate_group-Generated st statics time g code version h e =
    let low : ltb 1 version ≡ false = ground arith in
    rw (low, e)
      (record {
        same_state = refl;
        same_infowords = infowords-with_checkwords _;
        same_offsets = offsets-with_checkwords _;
        same_counters = refl;
        returns = refl;
      })

abbrev pub block : ℕ → ℕ → Block
block info offset = record { infoword = info; offset_word = offset; checkword = 0 }

-- The group before a group function fills it, in each version.
abbrev pub started_a : State → ℕ → Group
started_a st code = record empty_group {
  blocks =
      block st.pi 0x0FC ∷ block (header_sum st code 0) 0x198 ∷ block 0 0x168 ∷ block 0 0x1B4 ∷ [];
}

abbrev pub started_b : State → ℕ → Group
started_b st code = record empty_group {
  blocks =
      block st.pi 0x0FC
      ∷ block (header_sum st code 1) 0x198
      ∷ block st.pi 0x350
      ∷ block 0 0x1B4
      ∷ [];
}

module _ (st : State) (code : ℕ) (v : IsValid st) (h : code < 16) where
  pub header-u16 :
      (version : ℕ) → version < 2 → u16 (header_word st code version) ≡ header_sum st code version
  header-u16 version g =
      ap (λ (t : ℕ). t % 2 ^ 16) (header_word-eq st code version v h g)
      ∙ mod-eq_of_lt (omega (arith, header_sum-lt st code version v h g))

  pub start_group-a : start_group st code 0 ≡ started_a st code
  unfolding start_group
  start_group-a = rw (header-u16 0 (omega arith)) refl

  pub start_group-b : start_group st code 1 ≡ started_b st code
  unfolding start_group
  start_group-b = rw (header-u16 1 (omega arith), mod-eq_of_lt v.pi_fits) refl

  -- What a group function adds to block 2.
  pub or_header-u16 :
      (version x : ℕ)
      → version < 2
      → x < 32
      → u16 (bit_or (header_sum st code version) x) ≡ header_sum st code version + x
  or_header-u16 version x g k =
      ap (λ (t : ℕ). t % 2 ^ 16) (or_header st code version x v h g k)
      ∙ mod-eq_of_lt (omega (arith, header_sum-lt st code version v h g))

pub chars-u16 : (xs : List ℕ) (i : ℕ) → AreChars xs → u16 (text_word xs i) ≡ two_chars xs i
chars-u16 xs i v =
    let c-lt = char-lt xs i v in
    let d-lt = char-lt xs (i + 1) v in
    ap (λ (t : ℕ). t % 2 ^ 16) (text_word-eq xs i v) ∙ mod-eq_of_lt (omega arith)

pub tuning_sum-lt : (st : State) → IsValid st → tuning_sum st < 32
tuning_sum-lt st v = omega (arith, v.ta_flag, v.ms_flag, v.ps_place)

abbrev pub fill : State → Statics → Time → ℕ → ℕ → Filled
fill st statics time code version =
    fill_group st statics time (start_group st code version) code version

pub tuning_sum-u16 : (st : State) → IsValid st → u16 (tuning_sum st) ≡ tuning_sum st
tuning_sum-u16 st v = mod-eq_of_lt (omega (arith, tuning_sum-lt st v))

-- A call sent these four infowords, left this state and these counters, and returned 0.
pub record Sends (r : Filled) (words : List ℕ) (st' : State) (after : Statics) : Type 0 where
  pub words_are : infowords r.group ≡ words
  pub state_is : r.st ≡ st'
  pub counters_are : counters r.statics ≡ counters after
  pub returns : r.ret ≡ pos 0

abbrev pub at_ps_idx : State → State
at_ps_idx st = record st { ps_idx = if st.ps_idx == 3 then 0 else st.ps_idx + 1 }

pub next_ps_idx-eq : (i : ℕ) → i < 4 → next_ps_idx i ≡ (if i == 3 then 0 else i + 1)
next_ps_idx-eq i h = ground arith

module _ (st : State) (statics : Statics) (time : Time) (g : Group) (v : IsValid st) where
  pub generated :
      (code version : ℕ) (words : List ℕ) (st' : State) (after : Statics)
      → version < 2
      → Sends (fill st statics time code version) words st' after
      → Sends (generate_group st statics time g code version) words st' after
  generated code version words st' after h f =
      let done = generate_group-Generated st statics time g code version h (ap is_neg f.returns) in
      record {
        words_are = done.same_infowords ∙ f.words_are;
        state_is = done.same_state ∙ f.state_is;
        counters_are = done.same_counters ∙ f.counters_are;
        returns = done.returns;
      }

  fill_0a :
      Sends
        (fill st statics time 0 0)
        (st.pi
          ∷ (header_sum st 0 0 + tuning_sum st)
          ∷ tuning_sum st
          ∷ two_chars st.ps (2 * st.ps_idx)
          ∷ [])
        (record (at_ps_idx st) { af_idx = if st.af_idx == 10 then 0 else st.af_idx + 2 })
        statics
  unfolding fill_group generate_group_0
  fill_0a =
      rw
        (
          start_group-a st 0 v (omega arith),
          tuning_word-eq st v,
          or_header-u16 st 0 v (omega arith) 0 (tuning_sum st) (omega arith) (tuning_sum-lt st v),
          chars-u16 st.ps (2 * st.ps_idx) v.ps_chars,
          tuning_sum-u16 st v,
          next_ps_idx-eq st.ps_idx v.ps_place,
          next_af,
        )
        (record { words_are = refl; state_is = refl; counters_are = refl; returns = refl })
    where
      next_af :
          (if leb 10 st.af_idx then 0 else (st.af_idx + 2) % 16)
          ≡ (if st.af_idx == 10 then 0 else st.af_idx + 2)
      next_af = ground (arith, v.af_place)

  fill_0b :
      Sends
        (fill st statics time 0 1)
        (st.pi ∷ (header_sum st 0 1 + tuning_sum st) ∷ st.pi ∷ two_chars st.ps (2 * st.ps_idx) ∷ [])
        (at_ps_idx st)
        statics
  unfolding fill_group generate_group_0
  fill_0b =
      rw
        (
          start_group-b st 0 v (omega arith),
          tuning_word-eq st v,
          or_header-u16 st 0 v (omega arith) 1 (tuning_sum st) (omega arith) (tuning_sum-lt st v),
          chars-u16 st.ps (2 * st.ps_idx) v.ps_chars,
          next_ps_idx-eq st.ps_idx v.ps_place,
        )
        (record { words_are = refl; state_is = refl; counters_are = refl; returns = refl })

  -- A group 0 of a valid state, in version A and in version B: the PI, the header of type 0 with the
  -- switches and the segment's index, then the PI again in version B, and the two characters of
  -- the PS that the index stands for. The index goes round 0 to 3, and in version A that of the
  -- alternative frequencies round 0, 2, to 10. In version A block 3 holds the switches, and not
  -- the frequencies.
  pub generate_group_0-Sends :
      Sends
        (generate_group st statics time g 0 0)
        (st.pi
          ∷ (header_sum st 0 0 + tuning_sum st)
          ∷ tuning_sum st
          ∷ two_chars st.ps (2 * st.ps_idx)
          ∷ [])
        (record (at_ps_idx st) { af_idx = if st.af_idx == 10 then 0 else st.af_idx + 2 })
        statics
      × Sends
          (generate_group st statics time g 0 1)
          (st.pi
            ∷ (header_sum st 0 1 + tuning_sum st)
            ∷ st.pi
            ∷ two_chars st.ps (2 * st.ps_idx)
            ∷ [])
          (at_ps_idx st)
          statics
  generate_group_0-Sends = (
    generated 0 0 _ _ statics (omega arith) fill_0a,
    generated 0 1 _ _ statics (omega arith) fill_0b,
  )
