-- ===== src/Compiler/Diff.antt =====
-- internal/domain/compiler/diff.go: a planned change. `no_change` is `DiffTypeNone`, and `unset`
-- the empty text of a zero `Diff`.
use preflight.Base.{String}

pub data DiffType : Type 0 where
  add remove modify no_change unset : DiffType

pub record Diff : Type 0 where
  pub diff_type : DiffType
  pub resource : String
  pub name : String
  pub old_value : String
  pub new_value : String

abbrev pub zero_diff : Diff
zero_diff = record { diff_type = unset; resource = ""; name = ""; old_value = ""; new_value = "" }
