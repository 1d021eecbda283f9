-- ===== src/Tests/Data.antt =====
-- Inputs for the tests: a station with the PI 0x54A8, short texts, and a clock.
use jmpxrds.Modulation.{Group, group_samples}
use jmpxrds.Config.State.{State}
use jmpxrds.Config.Texts.{AreBytes}
use jmpxrds.Config.Valid.{IsValid, AreChars-replicate}
use jmpxrds.Group.Clock.{Tm, Time}
use jmpxrds.Group.Fill.{Statics}
use jmpxrds.Base.{ℕ, List, [], ◌∷◌, replicate, some, refl, arith}
use jmpxrds.Base.Int.{pos}
use jmpxrds.Block.{Block}
use jmpxrds.Block.Checkword.{IsBlock}

abbrev pub block_1 : Block
block_1 = record { infoword = 0x54A8; offset_word = 0xFC; checkword = 0 }

pub block_1-IsBlock : IsBlock block_1
block_1-IsBlock = record {
  info_fits = omega arith;
  offset_fits = omega arith;
  check_fits = omega arith;
}

-- A group of four such blocks, with its buffer.
abbrev pub group_1 : Group
group_1 = record {
  code = 0;
  version = 0;
  blocks = block_1 ∷ block_1 ∷ block_1 ∷ block_1 ∷ [];
  last_sample_idx = 0;
  samples_buffer = replicate group_samples (pos 0);
}

-- A state in which every text is set.
abbrev pub name_1 : List ℕ
name_1 = 74 ∷ 77 ∷ 80 ∷ 88 ∷ 82 ∷ 68 ∷ 83 ∷ 32 ∷ []

abbrev pub text_1 : List ℕ
text_1 = 72 ∷ 105 ∷ 33 ∷ 13 ∷ replicate 60 0

abbrev pub state_1 : State
state_1 = record {
  enabled = 1;
  pi = 0x54A8;
  ecc = 0xE1;
  ecc_set = 1;
  lic = 0x70;
  lic_set = 1;
  pty = 10;
  ta = 0;
  tp = 1;
  ms = 1;
  di = 9;
  ps = name_1;
  ps_set = 1;
  ps_idx = 0;
  ptyn = 77 ∷ 85 ∷ 83 ∷ 73 ∷ 67 ∷ 0 ∷ 0 ∷ 0 ∷ [];
  ptyn_set = 1;
  ptyn_idx = 0;
  ptyn_flush = 0;
  rt = text_1;
  rt_set = 1;
  rt_idx = 0;
  rt_segments = 1;
  rt_flush = 1;
  af_data = replicate 12 0;
  af_set = 0;
  af_len = 0;
  af_idx = 0;
}

pub state_1-IsValid : IsValid state_1
state_1-IsValid = record {
  pi_fits = omega arith;
  ecc_fits = omega arith;
  ecc_flag = omega arith;
  lic_fits = omega arith;
  lic_flag = omega arith;
  pty_fits = omega arith;
  ta_flag = omega arith;
  tp_flag = omega arith;
  ms_flag = omega arith;
  di_fits = omega arith;
  ps_length = refl;
  ps_chars = (
    omega arith,
    (
      omega arith,
      (omega arith, (omega arith, (omega arith, (omega arith, (omega arith, (omega arith, tt)))))),
    ),
  );
  ps_flag = omega arith;
  ps_place = omega arith;
  ptyn_length = refl;
  ptyn_chars = (
    omega arith,
    (
      omega arith,
      (omega arith, (omega arith, (omega arith, (omega arith, (omega arith, (omega arith, tt)))))),
    ),
  );
  ptyn_flag = omega arith;
  ptyn_place = omega arith;
  ptyn_toggle = omega arith;
  rt_length = refl;
  rt_chars = (omega arith, (omega arith, (omega arith, (omega arith, AreChars-replicate 60))));
  rt_flag = omega arith;
  rt_place = omega arith;
  rt_count = omega arith;
  rt_toggle = omega arith;
  af_length = refl;
  af_bytes = (
    omega arith,
    (
      omega arith,
      (
        omega arith,
        (
          omega arith,
          (
            omega arith,
            (
              omega arith,
              (
                omega arith,
                (omega arith, (omega arith, (omega arith, (omega arith, (omega arith, tt))))),
              ),
            ),
          ),
        ),
      ),
    ),
  );
  af_place = (refl, omega arith);
}

pub name_1-AreBytes : AreBytes name_1
name_1-AreBytes = (
  omega arith,
  (
    omega arith,
    (omega arith, (omega arith, (omega arith, (omega arith, (omega arith, (omega arith, tt)))))),
  ),
)

abbrev pub statics_1 : Statics
statics_1 = record {
  vcode = 0;
  moving_window = 0;
  groups_per_sec_counter = pos 1;
  groups_per_min_counter = 1;
  ptyn_cnt = 0;
}

-- The 15th of March 2024, 14:45 and 16:45.
abbrev pub utc_1 : Tm
utc_1 = record { min = 45; hour = 14; mday = 15; mon = 2; year = 124 }

abbrev pub here_1 : Tm
here_1 = record { min = 45; hour = 16; mday = 15; mon = 2; year = 124 }

abbrev pub time_1 : Time
time_1 = record { utc = some utc_1; local_time = some here_1 }
