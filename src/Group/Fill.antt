-- ===== src/Group/Fill.antt =====
-- rds_encoder.c: `rds_generate_group_0`, `_1`, `_2`, `_4`, `_10` and `_15`, and the static
-- variables of the group generator and of the scheduler.
use jmpxrds.Base.{
  ℕ, ◌+◌, ◌-◌, ◌*◌, ◌%◌, bit_and, bit_or, List, none, some, get_or, set, replicate, ◌==◌, ltb, leb,
  not, if◌then◌else◌, ◌<<<◌, ◌>>>◌, u16,
}
use jmpxrds.Base.Int.{ℤ, pos, minus}
use jmpxrds.Block.{Block}
use jmpxrds.Modulation.{Group, group_samples}
use jmpxrds.Config.State.{State}
use jmpxrds.Group.Clock.{Tm, Time, julian_day, tz_offset, tz_sign, tz_half_hours}

abbrev pub version_a : ℕ
version_a = 0

abbrev pub version_b : ℕ
version_b = 1

-- The static variables: `vcode`, `moving_window` and the counters of `rds_get_next_group`.
pub record Statics : Type 0 where
  pub vcode : ℕ
  pub moving_window : ℕ
  pub groups_per_sec_counter : ℤ
  pub groups_per_min_counter : ℕ
  pub ptyn_cnt : ℕ

-- What a function leaves behind, and what it returns.
pub record Filled : Type 0 where
  pub st : State
  pub statics : Statics
  pub group : Group
  pub ret : ℤ

abbrev pub empty_block : Block
empty_block = record { infoword = 0; offset_word = 0; checkword = 0 }

-- The group after `memset`.
unfoldable pub empty_group : Group
empty_group = record {
  code = 0;
  version = 0;
  blocks = replicate 4 empty_block;
  last_sample_idx = 0;
  samples_buffer = replicate group_samples (pos 0);
}

abbrev pub get_infoword : Group → ℕ → ℕ
get_infoword g i = (get_or g.blocks i empty_block).infoword

-- `group->blocks[i].infoword = w`
abbrev pub put_infoword : Group → ℕ → ℕ → Group
put_infoword g i w = record g {
  blocks = set g.blocks i (record (get_or g.blocks i empty_block) { infoword = u16 w });
}

-- `group->blocks[i].infoword |= w`
abbrev pub or_infoword : Group → ℕ → ℕ → Group
or_infoword g i w = put_infoword g i (bit_or (get_infoword g i) w)

abbrev pub put_offset : Group → ℕ → ℕ → Group
put_offset g i w = record g {
  blocks = set g.blocks i (record (get_or g.blocks i empty_block) { offset_word = w });
}

-- A `char` as an `int`, of which the low 16 bits matter.
unfoldable pub sign_extend : ℕ → ℕ
sign_extend c = if ltb c 128 then c else c + 0xFF00

-- `text[i] << 8 | text[i + 1]`, cut to 16 bits.
unfoldable pub text_word : List ℕ → ℕ → ℕ
unfolding sign_extend
text_word text i =
    u16 (bit_or (u16 (sign_extend (get_or text i 0) <<< 8)) (sign_extend (get_or text (i + 1) 0)))

-- The switches and the index at the end of block 2, in groups 0 and 15.
unfoldable pub tuning_word : State → ℕ
tuning_word st = u16 (
    bit_or
      (bit_or (bit_or st.ps_idx (bit_and (st.di >>> (3 - st.ps_idx)) 1 <<< 2))
        (bit_and st.ms 1 <<< 3))
      (bit_and st.ta 1 <<< 4))

abbrev pub next_ps_idx : ℕ → ℕ
next_ps_idx i = if leb 3 i then 0 else (i + 1) % 4

-- The alternative frequencies are put in block 3, and then written over.
unfoldable pub generate_group_0 : State → Statics → Group → ℕ → Filled
unfolding tuning_word text_word
generate_group_0 st statics group version =
    let temp_infoword = tuning_word st in
    let group' = or_infoword group 1 temp_infoword in
    let frequencies =
      bit_or (get_or st.af_data st.af_idx 0 <<< 8) (get_or st.af_data (st.af_idx + 1) 0) in
    let group'' =
      if version == version_a
      then put_infoword (put_infoword group' 2 frequencies) 2 temp_infoword
      else group' in
    let af_idx' =
      if version == version_a
      then (if leb 10 st.af_idx then 0 else (st.af_idx + 2) % 16)
      else st.af_idx in
    record {
      st = record st { af_idx = af_idx'; ps_idx = next_ps_idx st.ps_idx };
      statics = statics;
      group = put_infoword group'' 3 (text_word st.ps (2 * st.ps_idx));
      ret = pos 0;
    }

unfoldable pub generate_group_1 : State → Statics → Group → ℕ → Filled
generate_group_1 st statics group version =
    if not (version == version_a)
    then record { st = st; statics = statics; group = group; ret = minus 1 }
    else let vcode' : ℕ = if statics.vcode == 0 then 3 else 0 in
      let variant = if vcode' == 0 then bit_and st.ecc 0xFF else bit_and st.lic 0xFFF in
      record {
        st = st;
        statics = record statics { vcode = vcode' };
        group = put_infoword group 2 (bit_or variant (vcode' <<< 12));
        ret = pos 0;
      }

unfoldable pub generate_group_2 : State → Statics → Group → ℕ → Filled
unfolding text_word
generate_group_2 st statics group version =
    let temp_infoword = bit_or (bit_and st.rt_idx 0xF) (bit_and st.rt_flush 1 <<< 4) in
    let group' = or_infoword group 1 temp_infoword in
    if not (version == version_a)
    then record { st = st; statics = statics; group = group'; ret = minus 1 }
    else let group'' =
        put_infoword (put_infoword group' 2 (text_word st.rt (4 * st.rt_idx))) 3
          (text_word st.rt (4 * st.rt_idx + 2)) in
      let rt_idx' = (st.rt_idx + 1) % 16 in
      record {
        st = record st { rt_idx = if leb st.rt_segments rt_idx' then 0 else rt_idx' };
        statics = statics;
        group = group'';
        ret = pos 0;
      }

-- The three infowords of a clock-time group.
unfoldable pub clock_words : ℕ → Tm → ℤ → ℕ × ℕ × ℕ
clock_words mjd utc tz = (
  bit_and (mjd >>> 15) 0x3,
  bit_or (bit_and (mjd <<< 1) 0xFFFE) (bit_and (utc.hour >>> 4) 0x1),
  bit_or
      (bit_or (bit_or (bit_and utc.hour 0xf <<< 12) (bit_and utc.min 0x1f <<< 6))
        (tz_sign tz <<< 5))
      (bit_and (tz_half_hours tz) 0x1f),
)

-- The state is not read.
unfoldable pub generate_group_4 : State → Statics → Time → Group → ℕ → Filled
generate_group_4 st statics time group version =
    if not (version == version_a)
    then record { st = st; statics = statics; group = group; ret = minus 1 }
    else elim time.utc [
      | none ↦ record { st = st; statics = statics; group = group; ret = minus 2 }
      | some utc ↦ elim time.local_time [
        | none ↦ record { st = st; statics = statics; group = group; ret = minus 3 }
        | some here ↦
            let (w1, w2, w3) =
              clock_words (julian_day utc.year (utc.mon + 1) utc.mday) utc (tz_offset here utc) in
            record {
              st = st;
              statics = statics;
              group = put_infoword (put_infoword (or_infoword group 1 w1) 2 w2) 3 w3;
              ret = pos 0;
            }
      ]
    ]

unfoldable pub generate_group_10 : State → Statics → Group → ℕ → Filled
unfolding text_word
generate_group_10 st statics group version =
    if not (version == version_a)
    then record { st = st; statics = statics; group = group; ret = minus 1 }
    else let group' = or_infoword group 1 (bit_or st.ptyn_idx (st.ptyn_flush <<< 4)) in
      record {
        st = record st { ptyn_idx = if st.ptyn_idx == 1 then 0 else 1 };
        statics = statics;
        group =
            put_infoword (put_infoword group' 2 (text_word st.ptyn (4 * st.ptyn_idx))) 3
              (text_word st.ptyn (4 * st.ptyn_idx + 2));
        ret = pos 0;
      }

unfoldable pub generate_group_15 : State → Statics → Group → ℕ → Filled
unfolding tuning_word
generate_group_15 st statics group version =
    let group' = or_infoword group 1 (tuning_word st) in
    if not (version == version_b)
    then record { st = st; statics = statics; group = group'; ret = minus 1 }
    else record {
      st = record st { ps_idx = next_ps_idx st.ps_idx };
      statics = statics;
      group = put_infoword group' 3 (get_infoword group' 1);
      ret = pos 0;
    }
