-- ===== src/Dynamic/Scroll.antt =====
-- What a receiver sees of a dynamic PS: the whole text, eight characters at a time, after the
-- station's own name.
use jmpxrds.Base.{
  ℕ, zero, suc, ◌-◌, ◌≤◌, List, [], ◌++◌, Option, none, some, take, drop, length, ◌≡◌,
}
use jmpxrds.Config.State.{State}
use jmpxrds.Dynamic.{DynPs, consumer_pass}
use jmpxrds.Dynamic.Padded.{ArePrintable}

-- The PS after each of `n` passes, one after the other.
unfoldable pub shows : ℕ → DynPs → State → List ℕ
shows zero dps st = []
shows (suc n) dps st =
    let (dps', st') = consumer_pass dps (some st) in
    elim st' [ none ↦ [] | some s ↦ s.ps ++ shows n dps' s ]

-- The part of the text that is left.
abbrev left : DynPs → List ℕ
left dps = drop (dps.string_len - dps.remaining_len) dps.string

-- A state of the consumer between two passes, whose string is the text and nothing more.
record IsWhole (dps : DynPs) : Type 0 where
  pub chars : ArePrintable dps.string
  pub counted : dps.string_len ≡ length dps.string
  pub some_left : dps.remaining_len ≤ dps.string_len

after_pass : ℕ → DynPs × Option State → List ℕ
after_pass k r = elim (r.1) [ none ↦ [] | some s ↦ s.ps ++ shows k (r.0) s ]

-- A state of the consumer: the first `string_len` bytes of its string, which has as many at least,
-- are printable; the string of the program has 65 bytes, with 0 after the text.
pub record IsScroll (dps : DynPs) : Type 0 where
  pub text : ArePrintable (take dps.string_len dps.string)
  pub counted : dps.string_len ≤ length dps.string

-- The consumer with its text alone.
abbrev trim : DynPs → DynPs
trim dps = record dps { string = take dps.string_len dps.string }
