-- ===== src/Fmmod/Oscilator.antt =====
-- oscilator.c: the oscilator. The arithmetic of samples and phases, and the C library's sin, cos and
-- fmod, are an interface without laws.
use jmpxrds.Base.{ℕ, ◌/◌, ◌%◌, Option, none, some, Bool, ◌||◌, ◌==◌, leb, if◌then◌else◌}

-- Samples `A` and phases `D`; `above x y` is x > y, `literal n` is n tenths, `over x n` is x / n, and
-- `period_of n` the step of a period in n samples.
pub record Arith (A D : Type 0) : Type 0 where
  pub plus : A → A → A
  pub times : A → A → A
  pub negated : A → A
  pub above : A → A → Bool
  pub literal : ℕ → A
  pub over : A → ℕ → A
  pub start : D
  pub period_of : ℕ → D
  -- fmod(a + b, ONE_PERIOD)
  pub advance : D → D → D
  pub at_freq : D → ℕ → D
  pub sin : D → A
  pub cos : D → A

pub data OscType : Type 0 where
  sine : OscType
  cosine : OscType
  other : OscType

-- `struct osc_state`.
pub record Osc (D : Type 0) : Type 0 where
  pub phase_step : D
  pub current_phase : D
  pub sample_rate : ℕ
  pub kind : OscType

abbrev pub osc_sample_rate : ℕ
osc_sample_rate = 228000

abbrev pub max_frequency : ℕ
max_frequency = 57000

-- Whether `osc_initialize` refuses a rate: by a comparison, and an integer division of the smaller
-- number by the larger one.
abbrev pub osc_refused : ℕ → Bool
osc_refused sample_rate = leb sample_rate max_frequency || ((max_frequency / sample_rate) % 2 == 1)

module _ {A D : Type 0} (arith : Arith A D) where
  unfoldable pub osc_initialize : ℕ → OscType → Option (Osc D)
  osc_initialize sample_rate kind =
      if osc_refused sample_rate
      then none
      else some (record {
        phase_step = arith.period_of sample_rate;
        current_phase = arith.start;
        sample_rate = sample_rate;
        kind = kind;
      })

  abbrev pub increase_phase : Osc D → Osc D
  increase_phase osc = record osc { current_phase = arith.advance osc.current_phase osc.phase_step }

  abbrev pub wave : OscType → D → A
  wave sine phase = arith.sin phase
  wave cosine phase = arith.cos phase
  wave other phase = arith.literal 0

  abbrev pub sample_for_freq : Osc D → ℕ → A
  sample_for_freq osc freq = wave osc.kind (arith.at_freq osc.current_phase freq)

  abbrev pub sample_19khz : Osc D → A
  sample_19khz osc = sample_for_freq osc 19000

  abbrev pub sample_38khz : Osc D → A
  sample_38khz osc = sample_for_freq osc 38000

  abbrev pub sample_57khz : Osc D → A
  sample_57khz osc = sample_for_freq osc 57000
