-- ===== src/Scheduler/Steps.antt =====
-- One call of `rds_get_next_group` on a valid state: the group that each slot makes.
use jmpxrds.Base.{ℕ, ◌/◌, List, get_or, some, ◌≡◌, refl, sym, ap, ◌∙◌, subst, arith}
use jmpxrds.Base.Int.{pos}
use jmpxrds.Modulation.{Group}
use jmpxrds.Config.State.{State}
use jmpxrds.Config.Valid.{IsValid}
use jmpxrds.Group.{generate_group}
use jmpxrds.Group.Clock.{Tm, Time}
use jmpxrds.Group.Fill.{Filled, Statics}
use jmpxrds.Group.Layout.{Sends, infowords, generate_group_0-Sends}
use jmpxrds.Group.Texts.{generate_group_2-Sends, generate_group_10-Sends}
use jmpxrds.Group.Others.{generate_group_1-Sends, generate_group_4-Sends, generate_group_15-Sends}

-- The state flags that the choice depends on.
abbrev pub flags : State → ℕ × ℕ × ℕ × ℕ × ℕ × ℕ
flags st = (st.ps_set, st.af_set, st.ecc_set, st.lic_set, st.ptyn_set, st.rt_set)

-- A group of a given type was made of a valid state, and the state is still valid.
pub record Made (st : State) (s : Statics) (code : ℕ) (r : Filled) : Type 0 where
  pub valid : IsValid r.st
  pub same_flags : flags r.st ≡ flags st
  pub type_is : get_or (infowords r.group) 1 0 / 4096 ≡ code
  pub same_sec : r.statics.groups_per_sec_counter ≡ s.groups_per_sec_counter
  pub same_min : r.statics.groups_per_min_counter ≡ s.groups_per_min_counter
  pub same_ptyn : r.statics.ptyn_cnt ≡ s.ptyn_cnt
  pub returns : r.ret ≡ pos 0

module _ (st : State) (s : Statics) (r : Filled) where
  pub Made-Sends :
      (code : ℕ) (words : List ℕ) (st' : State) (after : Statics)
      → Sends r words st' after
      → IsValid st'
      → flags st' ≡ flags st
      → get_or words 1 0 / 4096 ≡ code
      → after.groups_per_sec_counter ≡ s.groups_per_sec_counter
      → after.groups_per_min_counter ≡ s.groups_per_min_counter
      → after.ptyn_cnt ≡ s.ptyn_cnt
      → Made st s code r
  Made-Sends code words st' after sent v f t a b c = record {
    valid = subst IsValid (sym sent.state_is) v;
    same_flags = ap flags sent.state_is ∙ f;
    type_is = ap (λ ws. get_or ws 1 0 / 4096) sent.words_are ∙ t;
    same_sec = ap (λ q. q.1) sent.counters_are ∙ a;
    same_min = ap (λ q. q.2) sent.counters_are ∙ b;
    same_ptyn = ap (λ q. q.3) sent.counters_are ∙ c;
    returns = sent.returns;
  }

module _ (st : State) (s : Statics) (time : Time) (g : Group) (v : IsValid st) where
  pub group_0a-Made : Made st s 0 (generate_group st s time g 0 0)
  group_0a-Made =
      Made-Sends st s _ 0 _ _ _ (generate_group_0-Sends st s time g v).0 (ground arith) refl
        (omega (arith, v.tp_flag, v.pty_fits, v.ta_flag, v.ms_flag, v.ps_place)) refl refl refl

  pub group_0b-Made : Made st s 0 (generate_group st s time g 0 1)
  group_0b-Made =
      Made-Sends st s _ 0 _ _ _ (generate_group_0-Sends st s time g v).1 (ground arith) refl
        (omega (arith, v.tp_flag, v.pty_fits, v.ta_flag, v.ms_flag, v.ps_place)) refl refl refl

  pub group_1a-Made : Made st s 1 (generate_group st s time g 1 0)
  group_1a-Made =
      Made-Sends st s _ 1 _ _ _ (generate_group_1-Sends st s time g v) v refl
        (omega (arith, v.tp_flag, v.pty_fits)) refl refl refl

  pub group_2a-Made : Made st s 2 (generate_group st s time g 2 0)
  group_2a-Made =
      Made-Sends st s _ 2 _ _ _ (generate_group_2-Sends st s time g v) (ground arith) refl
        (omega (arith, v.tp_flag, v.pty_fits, v.rt_toggle, v.rt_place)) refl refl refl

  pub group_10a-Made : Made st s 10 (generate_group st s time g 10 0)
  group_10a-Made =
      Made-Sends st s _ 10 _ _ _ (generate_group_10-Sends st s time g v) (ground arith) refl
        (omega (arith, v.tp_flag, v.pty_fits, v.ptyn_toggle, v.ptyn_place)) refl refl refl

  pub group_15b-Made : Made st s 15 (generate_group st s time g 15 1)
  group_15b-Made =
      Made-Sends st s _ 15 _ _ _ (generate_group_15-Sends st s time g v) (ground arith) refl
        (omega (arith, v.tp_flag, v.pty_fits, v.ta_flag, v.ms_flag, v.ps_place)) refl refl refl

-- A clock that can be read.
abbrev pub read_clock : Tm → Tm → Time
read_clock utc here = record { utc = some utc; local_time = some here }

pub group_4a-Made :
    (st : State) (s : Statics) (utc here : Tm) (g : Group)
    → IsValid st
    → Made st s 4 (generate_group st s (read_clock utc here) g 4 0)
group_4a-Made st s utc here g v =
    Made-Sends st s _ 4 _ _ _ (generate_group_4-Sends st s utc here g v) v refl
      (omega (arith, v.tp_flag, v.pty_fits)) refl refl refl
