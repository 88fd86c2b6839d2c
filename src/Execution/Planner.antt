-- ===== src/Execution/Planner.antt =====
-- internal/domain/execution/planner.go: a plan from the graph of steps.
pub mod Steps
pub mod Ordered
use preflight.Base.{List, Option, String, [], if◌then◌else◌, none, some, ◌∷◌}
use preflight.Compiler.Diff.{Diff, zero_diff}
use preflight.Compiler.Step.{Step, StepStatus}
use preflight.Compiler.StepGraph.{StepGraph, GraphError}
use preflight.Compiler.Sort.{Result, topological_sort}
use preflight.Execution.Plan.{Plan, PlanEntry, add_entry, is_needs_apply, new_execution_plan}

-- A step's error stands with its ID; planning a nil step panics.
pub data PlanError : Type 0 where
  sort_failed : GraphError → PlanError
  check_failed : String → String → PlanError
  plan_failed : String → String → PlanError
  nil_step : PlanError

pub data PlanResult (A : Type 0) : Type 0 where
  planned : A → PlanResult A
  stopped : PlanError → PlanResult A

module _ {World : Type 0} where
  abbrev pub after_plan :
      Step World
      → StepStatus
      → (Diff × Option String) × World
      → PlanResult (PlanEntry World) × World
  after_plan step status ((diff, some message), w) = (stopped (plan_failed step.id message), w)
  after_plan step status ((diff, none), w) =
      (planned (record { step = step; status = status; diff = diff }), w)

  abbrev pub after_check :
      Step World → (StepStatus × Option String) × World → PlanResult (PlanEntry World) × World
  after_check step ((status, some message), w) = (stopped (check_failed step.id message), w)
  after_check step ((status, none), w) =
      if is_needs_apply status
      then after_plan step status (step.plan w)
      else (planned (record { step = step; status = status; diff = zero_diff }), w)

  unfoldable pub plan_step : Step World → World → PlanResult (PlanEntry World) × World
  plan_step step w = after_check step (step.check w)

  abbrev pub plan_ref : Option (Step World) → World → PlanResult (PlanEntry World) × World
  plan_ref none w = (stopped nil_step, w)
  plan_ref (some step) w = plan_step step w

  abbrev pub after_entry :
      PlanResult (PlanEntry World) × World
      → Plan World
      → (Plan World → World → PlanResult (Plan World) × World)
      → PlanResult (Plan World) × World
  after_entry (stopped e, w) p rest = (stopped e, w)
  after_entry (planned entry, w) p rest = rest (add_entry entry p) w

  unfoldable pub plan_steps :
      List (Option (Step World)) → Plan World → World → PlanResult (Plan World) × World
  unfolding plan_step
  plan_steps [] p w = (planned p, w)
  plan_steps (s ∷ ss) p w = after_entry (plan_ref s w) p (plan_steps ss)

  abbrev pub after_sort :
      Option (Result (List (Option (Step World))))
      → World
      → Option (PlanResult (Plan World) × World)
  after_sort none w = none
  after_sort (some (Result.err e)) w = some (stopped (sort_failed e), w)
  after_sort (some (Result.ok steps)) w = some (plan_steps steps new_execution_plan w)

  -- `none` means that the sort ran out of fuel.
  unfoldable pub make_plan : StepGraph World → World → Option (PlanResult (Plan World) × World)
  make_plan g w = after_sort (topological_sort g) w
