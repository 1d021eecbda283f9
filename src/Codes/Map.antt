-- ===== src/Codes/Map.antt =====
-- gui/rds_codes.c: `struct rds_code_map`.
use Prim.Native.String.{String}
use jmpxrds.Base.{ℕ}

pub record CodeMap : Type 0 where
  pub code : ℕ
  pub name : String

abbrev pub entry : ℕ → String → CodeMap
entry c n = record { code = c; name = n }
