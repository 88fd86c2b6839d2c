-- ===== src/Execution/Plan.antt =====
-- internal/domain/execution/plan.go and step_result.go: what is planned for a step, and its result.
use preflight.Base.{
  Bool, List, Option, String, [], false, if◌then◌else◌, length, true, ℕ, ◌++◌, ◌+◌, ◌∷◌,
}
use preflight.Compiler.Diff.{Diff, zero_diff}
use preflight.Compiler.Step.{satisfied, needs_apply, unknown, failed, skipped, Step, StepStatus}

pub record PlanEntry (World : Type 0) : Type 0 where
  pub step : Step World
  pub status : StepStatus
  pub diff : Diff

pub record PlanSummary : Type 0 where
  pub total : ℕ
  pub needs_apply : ℕ
  pub satisfied : ℕ
  pub unknown : ℕ
  pub failed : ℕ
  pub skipped : ℕ

pub record Plan (World : Type 0) : Type 0 where
  pub entries : List (PlanEntry World)

abbrev pub is_needs_apply : StepStatus → Bool
is_needs_apply needs_apply = true
is_needs_apply _ = false

abbrev pub is_satisfied : StepStatus → Bool
is_satisfied satisfied = true
is_satisfied _ = false

abbrev pub is_failed : StepStatus → Bool
is_failed failed = true
is_failed _ = false

module _ {World : Type 0} where
  unfoldable pub new_execution_plan : Plan World
  new_execution_plan = record { entries = [] }

  unfoldable pub add_entry : PlanEntry World → Plan World → Plan World
  add_entry entry p = record { entries = p.entries ++ entry ∷ [] }

  unfoldable pub entries_to_apply : List (PlanEntry World) → List (PlanEntry World)
  entries_to_apply [] = []
  entries_to_apply (e ∷ es) =
      let rest = entries_to_apply es in if is_needs_apply e.status then e ∷ rest else rest

  unfoldable pub has_entry_to_apply : List (PlanEntry World) → Bool
  has_entry_to_apply [] = false
  has_entry_to_apply (e ∷ es) = if is_needs_apply e.status then true else has_entry_to_apply es

  unfoldable pub has_changes : Plan World → Bool
  unfolding has_entry_to_apply
  has_changes p = has_entry_to_apply p.entries

abbrev pub count_status : StepStatus → PlanSummary → PlanSummary
count_status needs_apply s = record s { needs_apply = s.needs_apply + 1 }
count_status satisfied s = record s { satisfied = s.satisfied + 1 }
count_status unknown s = record s { unknown = s.unknown + 1 }
count_status failed s = record s { failed = s.failed + 1 }
count_status skipped s = record s { skipped = s.skipped + 1 }

module _ {World : Type 0} where
  unfoldable pub summarise : List (PlanEntry World) → PlanSummary → PlanSummary
  summarise [] s = s
  summarise (e ∷ es) s = summarise es (count_status e.status s)

  unfoldable pub summary : Plan World → PlanSummary
  unfolding summarise
  summary p = summarise p.entries (record {
    total = length p.entries;
    needs_apply = 0;
    satisfied = 0;
    unknown = 0;
    failed = 0;
    skipped = 0;
  })

pub record StepResult : Type 0 where
  pub step_id : String
  pub status : StepStatus
  pub error : Option String
  pub duration : ℕ
  pub diff : Diff
  pub applied : Bool

unfoldable pub new_step_result : String → StepStatus → Option String → StepResult
new_step_result id status error = record {
  step_id = id;
  status = status;
  error = error;
  duration = 0;
  diff = zero_diff;
  applied = false;
}
