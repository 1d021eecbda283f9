-- ===== src/Group.antt =====
-- rds_encoder.c: the functions that fill a group of each type, and `rds_generate_group`.
pub mod Clock
pub mod Calendar
pub mod Fill
pub mod Words
pub mod Layout
pub mod Texts
pub mod Others
use jmpxrds.Base.{
  ℕ, ◌+◌, ◌*◌, ◌%◌, ◌^◌, bit_and, bit_or, List, [], ◌∷◌, Bool, true, false, get_or, set, replicate,
  ◌==◌, ltb, if◌then◌else◌, ◌<<<◌, u16,
}
use jmpxrds.Base.Int.{ℤ, pos, minus, is_neg}
use jmpxrds.Block.{Block, offset_words, alt_offset_word_c_idx}
use jmpxrds.Modulation.{Group, generate_group_samples}
use jmpxrds.Config.State.{State}
use Clock.{Time}
use Fill.{
  Filled, Statics, version_a, version_b, empty_group, put_infoword, get_infoword, put_offset,
  generate_group_0, generate_group_1, generate_group_2, generate_group_4, generate_group_10,
  generate_group_15,
}

-- The offset words of the four blocks, then the PI, the header of block 2 and, in version B, the
-- PI once more with the offset word C'.
unfoldable pub start_group : State → ℕ → ℕ → Group
unfolding empty_group
start_group st code version =
    let header =
      bit_or
        (bit_or (bit_or (bit_and code 0xF <<< 12) (bit_and version 1 <<< 11))
          (bit_and st.tp 1 <<< 10))
        (bit_and st.pty 0x1f <<< 5) in
    let with_offsets = record empty_group {
      blocks =
          record { infoword = st.pi; offset_word = get_or offset_words 0 0; checkword = 0 }
          ∷ record { infoword = u16 header; offset_word = get_or offset_words 1 0; checkword = 0 }
          ∷ record { infoword = 0; offset_word = get_or offset_words 2 0; checkword = 0 }
          ∷ record { infoword = 0; offset_word = get_or offset_words 3 0; checkword = 0 }
          ∷ [];
    } in
    if version == version_b
    then put_offset (put_infoword with_offsets 2 st.pi) 2
        (get_or offset_words alt_offset_word_c_idx 0)
    else with_offsets

-- The `switch` on the group type.
unfoldable pub fill_group : State → Statics → Time → Group → ℕ → ℕ → Filled
fill_group st statics time group code version =
    if code == 0
    then generate_group_0 st statics group version
    else if code == 1
    then generate_group_1 st statics group version
    else if code == 2
    then generate_group_2 st statics group version
    else if code == 4
    then generate_group_4 st statics time group version
    else if code == 10
    then generate_group_10 st statics group version
    else if code == 15
    then generate_group_15 st statics group version
    else record { st = st; statics = statics; group = group; ret = minus 1 }

-- `rds_generate_group` for an encoder and a group that are not NULL.
unfoldable pub generate_group : State → Statics → Time → Group → ℕ → ℕ → Filled
unfolding start_group fill_group
generate_group st statics time group code version =
    if ltb 1 version
    then record { st = st; statics = statics; group = group; ret = minus 1 }
    else let filled = fill_group st statics time (start_group st code version) code version in
      if is_neg filled.ret
      then filled
      else let (window, sent) = generate_group_samples filled.statics.moving_window filled.group in
        record {
          st = filled.st;
          statics = record (filled.statics) { moving_window = window };
          group = sent;
          ret = pos 0;
        }
