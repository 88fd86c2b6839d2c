-- ===== src/Compiler/Step.antt =====
-- internal/domain/compiler/step.go, step_status.go: a unit of execution.
use preflight.Compiler.Diff.{Diff}
use preflight.Base.{Bool, List, Option, String, false, true}

pub data StepStatus : Type 0 where
  satisfied needs_apply unknown failed skipped : StepStatus

unfoldable pub needs_action : StepStatus → Bool
needs_action needs_apply = true
needs_action unknown = true
needs_action failed = true
needs_action satisfied = false
needs_action skipped = false

unfoldable pub is_terminal : StepStatus → Bool
is_terminal satisfied = true
is_terminal failed = true
is_terminal skipped = true
is_terminal needs_apply = false
is_terminal unknown = false

-- `RollbackableStep`, the methods that such a step has beside those of `Step`.
pub record Rollbackable (World : Type 0) : Type 0 where
  pub can_rollback : World → Bool
  pub rollback : World → Option String × World

-- The interface `Step`: its methods act on the machine, `World`, and an error is its message.
-- A step ID is its text. `rollbackable` is the cast of `AsRollbackable`.
pub record Step (World : Type 0) : Type 0 where
  pub id : String
  pub depends_on : List String
  pub check : World → (StepStatus × Option String) × World
  pub plan : World → (Diff × Option String) × World
  pub apply : World → Option String × World
  pub rollbackable : Option (Rollbackable World)
