-- ===== src/Group/Others.antt =====
-- Groups 1A, 4A and 15B: the slow labelling codes, the clock time, and the fast switches.
use jmpxrds.Base.{
  ℕ, ◌+◌, ◌*◌, ◌/◌, ◌%◌, ◌^◌, ◌<◌, List, [], ◌∷◌, some, Bool-cases, inl, inr, ◌==◌, if◌then◌else◌,
  refl, ap, arith, bit_and_mask, bit_or_add',
}
use native.Mathlib.Nat.{mod-eq_of_lt}
use jmpxrds.Modulation.{Group}
use jmpxrds.Config.State.{State}
use jmpxrds.Config.Valid.{IsValid}
use jmpxrds.Group.{fill_group, generate_group}
use jmpxrds.Group.Clock.{Tm, Time, julian_day, tz_offset, tz_sign, tz_half_hours}
use jmpxrds.Group.Fill.{Statics, generate_group_1, generate_group_4, generate_group_15}
use jmpxrds.Group.Words.{
  tuning_sum, tuning_word-eq, header_sum, clock_words-eq, tz_sign-lt, header_sum-lt,
}
use jmpxrds.Group.Layout.{
  Sends, fill, generated, start_group-a, start_group-b, or_header-u16, tuning_sum-lt, at_ps_idx,
  next_ps_idx-eq,
}

module _ (st : State) (statics : Statics) (time : Time) (g : Group) (v : IsValid st) where
  -- The label that goes with a variant: the language if the variant is 3, else the country.
  abbrev label_word : ℕ → ℕ
  label_word vcode = if vcode == 0 then st.lic + 3 * 4096 else st.ecc

  fill_1a :
      Sends
        (fill st statics time 1 0)
        (st.pi ∷ header_sum st 1 0 ∷ label_word statics.vcode ∷ 0 ∷ [])
        st
        (record statics { vcode = if statics.vcode == 0 then 3 else 0 })
  unfolding fill_group generate_group_1
  fill_1a = elim (Bool-cases (statics.vcode == 0)) [
    | inl z ↦
        rw
          (
            start_group-a st 1 v (omega arith),
            z,
            bit_and_mask 12 st.lic,
            bit_or_add' 12 (3 * 2 ^ 12) (st.lic % 2 ^ 12) (omega arith) (omega arith),
          )
          (record {
            words_are =
                ap (λ x. st.pi ∷ header_sum st 1 0 ∷ x ∷ 0 ∷ []) (omega (arith, v.lic_fits));
            state_is = refl;
            counters_are = refl;
            returns = refl;
          })
    | inr z ↦
        rw
          (
            start_group-a st 1 v (omega arith),
            z,
            bit_and_mask 8 st.ecc,
            bit_or_add' 12 (0 * 2 ^ 12) (st.ecc % 2 ^ 8) (omega arith) (omega arith),
          )
          (record {
            words_are =
                ap (λ x. st.pi ∷ header_sum st 1 0 ∷ x ∷ 0 ∷ []) (omega (arith, v.ecc_fits));
            state_is = refl;
            counters_are = refl;
            returns = refl;
          })
  ]

  fill_15b :
      Sends
        (fill st statics time 15 1)
        (st.pi
          ∷ (header_sum st 15 1 + tuning_sum st)
          ∷ st.pi
          ∷ (header_sum st 15 1 + tuning_sum st)
          ∷ [])
        (at_ps_idx st)
        statics
  unfolding fill_group generate_group_15
  fill_15b =
      rw
        (
          start_group-b st 15 v (omega arith),
          tuning_word-eq st v,
          or_header-u16 st 15 v (omega arith) 1 (tuning_sum st) (omega arith) (tuning_sum-lt st v),
          next_ps_idx-eq st.ps_idx v.ps_place,
          mod-eq_of_lt small,
        )
        (record { words_are = refl; state_is = refl; counters_are = refl; returns = refl })
    where
      small : header_sum st 15 1 + tuning_sum st < 2 ^ 16
      small = omega (arith, header_sum-lt st 15 1 v, tuning_sum-lt st v)

  -- Groups 1A of a valid state alternate between the language code, with variant 3, and the country
  -- code, with variant 0.
  pub generate_group_1-Sends :
      Sends
        (generate_group st statics time g 1 0)
        (st.pi ∷ header_sum st 1 0 ∷ label_word statics.vcode ∷ 0 ∷ [])
        st
        (record statics { vcode = if statics.vcode == 0 then 3 else 0 })
  generate_group_1-Sends = generated st statics time g v 1 0 _ _ _ (omega arith) fill_1a

  -- A group 15B of a valid state carries the header with the switches twice, in blocks 2 and 4, and
  -- the PI twice, in blocks 1 and 3; it moves on to the next segment.
  pub generate_group_15-Sends :
      Sends
        (generate_group st statics time g 15 1)
        (st.pi
          ∷ (header_sum st 15 1 + tuning_sum st)
          ∷ st.pi
          ∷ (header_sum st 15 1 + tuning_sum st)
          ∷ [])
        (at_ps_idx st)
        statics
  generate_group_15-Sends = generated st statics time g v 15 1 _ _ _ (omega arith) fill_15b

module _ (st : State) (statics : Statics) (utc here : Tm) (g : Group) (v : IsValid st) where
  abbrev mjd : ℕ
  mjd = julian_day utc.year (utc.mon + 1) utc.mday

  abbrev now : Time
  now = record { utc = some utc; local_time = some here }

  abbrev clock_word : ℕ
  clock_word =
      utc.hour % 16 * 4096
      + utc.min % 32 * 64
      + tz_sign (tz_offset here utc) * 32
      + tz_half_hours (tz_offset here utc) % 32

  fill_4a :
      Sends
        (fill st statics now 4 0)
        (st.pi
          ∷ (header_sum st 4 0 + mjd / 32768 % 4)
          ∷ (mjd % 32768 * 2 + utc.hour / 16 % 2)
          ∷ clock_word
          ∷ [])
        st
        statics
  unfolding fill_group generate_group_4
  fill_4a =
      rw
        (
          start_group-a st 4 v (omega arith),
          clock_words-eq mjd utc (tz_offset here utc),
          or_header-u16 st 4 v (omega arith) 0 (mjd / 32768 % 4) (omega arith) (omega arith),
          mod-eq_of_lt small,
          mod-eq_of_lt small',
        )
        (record { words_are = refl; state_is = refl; counters_are = refl; returns = refl })
    where
      small : mjd % 32768 * 2 + utc.hour / 16 % 2 < 2 ^ 16
      small = omega arith

      small' : clock_word < 2 ^ 16
      small' = omega (arith, tz_sign-lt (tz_offset here utc))

  -- A group 4A of a valid state, where the C library gives both times: the 17 low bits of the day
  -- number over blocks 2 and 3, the hour over blocks 3 and 4, then five bits of the minute, the
  -- sign and the size of the local offset in half hours. The state does not change.
  pub generate_group_4-Sends :
      Sends
        (generate_group st statics now g 4 0)
        (st.pi
          ∷ (header_sum st 4 0 + mjd / 32768 % 4)
          ∷ (mjd % 32768 * 2 + utc.hour / 16 % 2)
          ∷ clock_word
          ∷ [])
        st
        statics
  generate_group_4-Sends = generated st statics now g v 4 0 _ _ statics (omega arith) fill_4a

  -- The fields of the 4A group, by the modified Julian day and the local offset.
  abbrev clock_group_words : (day sign half_hours : ℕ) → List ℕ
  clock_group_words day sign half_hours =
      st.pi
      ∷ (header_sum st 4 0 + day / 32768 % 4)
      ∷ (day % 32768 * 2 + utc.hour / 16 % 2)
      ∷ (utc.hour % 16 * 4096 + utc.min % 32 * 64 + sign * 32 + half_hours % 32)
      ∷ []
