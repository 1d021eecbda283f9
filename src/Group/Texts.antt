-- ===== src/Group/Texts.antt =====
-- Groups 2A and 10A, which carry the RadioText and the programme type name.
use jmpxrds.Base.{
  ℕ, ◌+◌, ◌*◌, ◌%◌, ◌^◌, bit_and, bit_or, [], ◌∷◌, leb, ◌==◌, if◌then◌else◌, ◌≡◌, refl, arith,
  bit_and_mask, bit_or_add', ◌<<<◌,
}
use jmpxrds.Modulation.{Group}
use jmpxrds.Config.State.{State}
use jmpxrds.Config.Valid.{IsValid}
use jmpxrds.Group.{fill_group, generate_group}
use jmpxrds.Group.Clock.{Time}
use jmpxrds.Group.Fill.{Statics, generate_group_2, generate_group_10}
use jmpxrds.Group.Words.{two_chars, header_sum}
use jmpxrds.Group.Layout.{Sends, fill, generated, start_group-a, or_header-u16, chars-u16}

module _ (st : State) (statics : Statics) (time : Time) (g : Group) (v : IsValid st) where
  abbrev rt_word : ℕ
  rt_word = st.rt_flush * 16 + st.rt_idx

  rt_word-eq : bit_or (bit_and st.rt_idx 0xF) (bit_and st.rt_flush 1 <<< 4) ≡ rt_word
  rt_word-eq =
      rw
        (
          bit_and_mask 4 st.rt_idx,
          bit_and_mask 1 st.rt_flush,
          bit_or_add' 4 (st.rt_flush % 2 ^ 1 * 2 ^ 4) (st.rt_idx % 2 ^ 4) (omega arith)
              (omega arith),
        )
        (omega (arith, v.rt_place, v.rt_toggle))

  fill_2a :
      Sends
        (fill st statics time 2 0)
        (st.pi
          ∷ (header_sum st 2 0 + rt_word)
          ∷ two_chars st.rt (4 * st.rt_idx)
          ∷ two_chars st.rt (4 * st.rt_idx + 2)
          ∷ [])
        (record st {
          rt_idx = if leb st.rt_segments ((st.rt_idx + 1) % 16) then 0 else (st.rt_idx + 1) % 16;
        })
        statics
  unfolding fill_group generate_group_2
  fill_2a =
      rw
        (
          start_group-a st 2 v (omega arith),
          rt_word-eq,
          or_header-u16 st 2 v (omega arith) 0 rt_word (omega arith)
              (omega (arith, v.rt_place, v.rt_toggle)),
          chars-u16 st.rt (4 * st.rt_idx) v.rt_chars,
          chars-u16 st.rt (4 * st.rt_idx + 2) v.rt_chars,
        )
        (record { words_are = refl; state_is = refl; counters_are = refl; returns = refl })

  abbrev ptyn_word : ℕ
  ptyn_word = st.ptyn_flush * 16 + st.ptyn_idx

  fill_10a :
      Sends
        (fill st statics time 10 0)
        (st.pi
          ∷ (header_sum st 10 0 + ptyn_word)
          ∷ two_chars st.ptyn (4 * st.ptyn_idx)
          ∷ two_chars st.ptyn (4 * st.ptyn_idx + 2)
          ∷ [])
        (record st { ptyn_idx = if st.ptyn_idx == 1 then 0 else 1 })
        statics
  unfolding fill_group generate_group_10
  fill_10a =
      rw
        (
          start_group-a st 10 v (omega arith),
          bit_or_add' 4 (st.ptyn_flush * 2 ^ 4) st.ptyn_idx (omega arith)
              (omega (arith, v.ptyn_place)),
          or_header-u16 st 10 v (omega arith) 0 ptyn_word (omega arith)
              (omega (arith, v.ptyn_place, v.ptyn_toggle)),
          chars-u16 st.ptyn (4 * st.ptyn_idx) v.ptyn_chars,
          chars-u16 st.ptyn (4 * st.ptyn_idx + 2) v.ptyn_chars,
        )
        (record { words_are = refl; state_is = refl; counters_are = refl; returns = refl })

  -- A group 2A of a valid state carries the A/B flag, the segment's index and its four characters of
  -- the RadioText; the next index is one more, or 0 where that reaches the number of segments.
  pub generate_group_2-Sends :
      Sends
        (generate_group st statics time g 2 0)
        (st.pi
          ∷ (header_sum st 2 0 + rt_word)
          ∷ two_chars st.rt (4 * st.rt_idx)
          ∷ two_chars st.rt (4 * st.rt_idx + 2)
          ∷ [])
        (record st {
          rt_idx = if leb st.rt_segments ((st.rt_idx + 1) % 16) then 0 else (st.rt_idx + 1) % 16;
        })
        statics
  generate_group_2-Sends = generated st statics time g v 2 0 _ _ statics (omega arith) fill_2a

  -- A group 10A of a valid state carries the A/B flag, the segment's index and its four characters of
  -- the programme type name; the index alternates.
  pub generate_group_10-Sends :
      Sends
        (generate_group st statics time g 10 0)
        (st.pi
          ∷ (header_sum st 10 0 + ptyn_word)
          ∷ two_chars st.ptyn (4 * st.ptyn_idx)
          ∷ two_chars st.ptyn (4 * st.ptyn_idx + 2)
          ∷ [])
        (record st { ptyn_idx = if st.ptyn_idx == 1 then 0 else 1 })
        statics
  generate_group_10-Sends = generated st statics time g v 10 0 _ _ statics (omega arith) fill_10a

  -- Of a valid state: a group 2A carries the A/B flag, the segment's index and its four characters of
  -- the RadioText, and the next index is one more, or 0 where that reaches the number of segments; a
  -- group 10A carries the same of the programme type name, whose index alternates.
  pub text_groups-Sends :
      Sends
        (generate_group st statics time g 2 0)
        (st.pi
          ∷ (header_sum st 2 0 + rt_word)
          ∷ two_chars st.rt (4 * st.rt_idx)
          ∷ two_chars st.rt (4 * st.rt_idx + 2)
          ∷ [])
        (record st {
          rt_idx = if leb st.rt_segments ((st.rt_idx + 1) % 16) then 0 else (st.rt_idx + 1) % 16;
        })
        statics
      × Sends
          (generate_group st statics time g 10 0)
          (st.pi
            ∷ (header_sum st 10 0 + ptyn_word)
            ∷ two_chars st.ptyn (4 * st.ptyn_idx)
            ∷ two_chars st.ptyn (4 * st.ptyn_idx + 2)
            ∷ [])
          (record st { ptyn_idx = if st.ptyn_idx == 1 then 0 else 1 })
          statics
  text_groups-Sends = (generate_group_2-Sends, generate_group_10-Sends)
