-- ===== src/Execution/Examples.antt =====
-- A plan whose first step fails: the theorems of internal/domain/execution at concrete runs.
use preflight.Base.{
  String, Bool, List, [], false, length, none, refl, some, true, ℕ, ◌-◌, ◌↔◌, ◌∷◌, ◌≡◌, ◌⊎◌,
  binary_search, sort_strings,
}
use preflight.GoMap.{put, keys, lookup}
use preflight.Compiler.Diff.{zero_diff}
use preflight.Compiler.Step.{Step, StepStatus, failed, needs_apply, satisfied, skipped}
use preflight.Compiler.StepGraph.{cyclic_dependency, add_step, new_step_graph, record_dependents}
use preflight.Compiler.Sort.{
  topological_sort, count_degrees, count_deps, in_degrees, insert_sorted, ready_ids, release,
  sort_loop, zero_degrees,
}
use preflight.Compiler.Sort.Correct.{IsStuck, StandsAfterDeps}
use preflight.Compiler.Examples.{demo_graph, demo_graph-IsGraph, demo_step, tap, config, formula}
use preflight.Execution.Plan.{
  Plan, PlanEntry, StepResult, new_step_result, add_entry, new_execution_plan,
}
use preflight.Execution.Planner.{
  PlanResult, make_plan, sort_failed, stopped, plan_step, plan_steps, planned,
}
use preflight.Execution.Pipeline.{pipeline_lem, result_ids}
use preflight.Execution.Planner.Ordered.{IsOrderedPlan, make_plan_lem}
use preflight.Execution.Executor.{
  Executor, GoContext, execute, execute_with_rollback, any_failed, apply_with_cancellation,
  conclude, execute_entry, rollback_each, rollback_steps, run_entries, track,
}
use preflight.Execution.Executor.Invariant.{any_failure}
use preflight.Execution.Executor.Skips.{Explains, execute_with_rollback-Explains}
use preflight.Execution.Executor.Rollback.{RolledBack, execute_with_rollback-RolledBack}
use preflight.Execution.Executor.Runs.{
  execute_errors, execute_with_rollback-completes, execute_with_rollback-dry_run,
  execute_with_rollback-stops, init,
}

-- The machine is the number of steps that are applied; the context never ends.
abbrev demo_ctx : GoContext ℕ
demo_ctx = record {
  is_done = λ _ _. false;
  interrupted = λ _ _. none;
  error_text = "context canceled";
  now = λ w. w;
}

abbrev undoable : Step ℕ
undoable = record tap {
  rollbackable = some (record { can_rollback = λ _. true; rollback = λ w. (none, w - 1) });
}

abbrev broken : Step ℕ
broken = record (demo_step "brew:formula:gh" ("brew:tap" ∷ [])) {
  apply = λ w. (some "exit status 1", w);
}

abbrev entry_for : Step ℕ → PlanEntry ℕ
entry_for s = record { step = s; status = needs_apply; diff = zero_diff }

-- A step that is applied, one that fails, one that depends on it, and one that depends on that.
abbrev demo_plan : Plan ℕ
demo_plan = record {
  entries =
      entry_for undoable
      ∷ entry_for broken
      ∷ entry_for (demo_step "git:config" ("brew:formula:gh" ∷ []))
      ∷ entry_for (demo_step "git:hooks" ("git:config" ∷ []))
      ∷ [];
}

abbrev plain : Executor
plain = record { dry_run = false; rollback_on_failure = false }

abbrev careful : Executor
careful = record { dry_run = false; rollback_on_failure = true }

abbrev dry : Executor
dry = record { dry_run = true; rollback_on_failure = false }

make_plan_lem_example :
    ((among : String → Bool) × IsStuck demo_graph among
      × (make_plan demo_graph 0 ≡ some (stopped (sort_failed cyclic_dependency), 0)))
    ⊎ ((r : PlanResult (Plan ℕ) × ℕ) × (make_plan demo_graph 0 ≡ some r)
        × IsOrderedPlan demo_graph 0 r)
make_plan_lem_example = make_plan_lem demo_graph 0 demo_graph-IsGraph

execute_with_rollback-Explains_example :
    Explains [] demo_plan.entries (execute_with_rollback demo_ctx plain demo_plan 0).0.results
execute_with_rollback-Explains_example =
    execute_with_rollback-Explains demo_ctx plain demo_plan 0 refl

execute_with_rollback-RolledBack_example :
    RolledBack demo_ctx careful demo_plan 0 (execute_with_rollback demo_ctx careful demo_plan 0)
execute_with_rollback-RolledBack_example =
    execute_with_rollback-RolledBack demo_ctx careful demo_plan 0

execute_with_rollback-stops_example :
    any_failure (init (execute_with_rollback demo_ctx careful demo_plan 0).0.results) ≡ false
execute_with_rollback-stops_example = execute_with_rollback-stops demo_ctx careful demo_plan 0 refl

execute_with_rollback-completes_example :
    length (execute_with_rollback demo_ctx plain demo_plan 0).0.results ≡ length demo_plan.entries
execute_with_rollback-completes_example =
    execute_with_rollback-completes demo_ctx plain demo_plan 0 refl (λ _ _. refl)

execute_with_rollback-dry_run_example :
    ((execute_with_rollback demo_ctx dry demo_plan 0).1 ≡ 0)
    × ((execute_with_rollback demo_ctx dry demo_plan 0).0.rolled_back ≡ false)
execute_with_rollback-dry_run_example = execute_with_rollback-dry_run demo_ctx dry demo_plan 0 refl

execute_errors_example :
    ((execute demo_ctx plain demo_plan 0).0.1 ≡ [])
    ↔ (any_failure (execute demo_ctx plain demo_plan 0).0.0 ≡ false)
execute_errors_example = execute_errors demo_ctx plain demo_plan 0

abbrev brew_plan : Plan ℕ
brew_plan = record { entries = entry_for tap ∷ entry_for formula ∷ entry_for config ∷ [] }

brew_planned : make_plan demo_graph 0 ≡ some (planned brew_plan, 0)
unfolding make_plan plan_steps plan_step add_entry new_execution_plan topological_sort add_step
    new_step_graph sort_loop release insert_sorted in_degrees count_degrees count_deps zero_degrees
    ready_ids record_dependents lookup put keys sort_strings binary_search
brew_planned = refl

pipeline_lem_example :
    StandsAfterDeps demo_graph []
      (result_ids (execute_with_rollback demo_ctx plain brew_plan 0).0.results)
pipeline_lem_example =
    pipeline_lem demo_graph demo_ctx plain brew_plan 0 0 0 demo_graph-IsGraph brew_planned refl

abbrev statuses : List StepResult → List StepStatus
statuses [] = []
statuses (r ∷ rs) = r.status ∷ statuses rs

-- The step behind a skipped one is applied.
demo_statuses :
    statuses (execute_with_rollback demo_ctx plain demo_plan 0).0.results
    ≡ satisfied ∷ failed ∷ skipped ∷ satisfied ∷ []
unfolding execute_with_rollback run_entries execute_entry track conclude any_failed
    apply_with_cancellation new_step_result lookup put
demo_statuses = refl

-- The careful executor undoes its one step.
demo_rollback : (execute_with_rollback demo_ctx careful demo_plan 5).1 ≡ 5
unfolding execute_with_rollback run_entries execute_entry track conclude any_failed
    apply_with_cancellation new_step_result lookup put rollback_steps rollback_each
demo_rollback = refl
