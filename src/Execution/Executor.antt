-- ===== src/Execution/Executor.antt =====
-- internal/domain/execution/executor.go: the execution of a plan.
pub mod Invariant
pub mod Skips
pub mod Undo
pub mod Rollback
pub mod Runs
use preflight.Compiler.Step.{failed}
use preflight.Base.{
  Bool, List, Option, String, [], false, if◌then◌else◌, length, ltb, none, not, reverse, some, true,
  ℕ, ◌&&◌, ◌++◌, ◌-◌, ◌∷◌,
}
use preflight.GoMap.{lookup, is_some, put}
use preflight.Compiler.Step.{Step, Rollbackable, satisfied, skipped}
use preflight.Execution.Plan.{Plan, PlanEntry, StepResult, is_failed, is_satisfied, new_step_result}

pub record Executor : Type 0 where
  pub dry_run : Bool
  pub rollback_on_failure : Bool

unfoldable pub new_executor : Executor
new_executor = record { dry_run = false; rollback_on_failure = false }

unfoldable pub with_dry_run : Bool → Executor → Executor
with_dry_run dry_run e = record { dry_run = dry_run; rollback_on_failure = e.rollback_on_failure }

unfoldable pub with_rollback_on_failure : Bool → Executor → Executor
with_rollback_on_failure rollback e = record { dry_run = e.dry_run; rollback_on_failure = rollback }

-- Go's context and clock. `is_done n w` tells whether the context has ended before the next entry,
-- after `n` entries, whatever these have left of the machine. `interrupted` is the machine when the
-- context ends before a step's `Apply` has returned, and `none` where `Apply` returns first.
pub record GoContext (World : Type 0) : Type 0 where
  pub is_done : ℕ → World → Bool
  pub interrupted : Step World → World → Option World
  pub error_text : String
  pub now : World → ℕ

pub record RollbackResult : Type 0 where
  pub step_id : String
  pub success : Bool
  pub error : Option String
  pub duration : ℕ

pub record ExecuteResult : Type 0 where
  pub results : List StepResult
  pub rollback_results : List RollbackResult
  pub rolled_back : Bool

-- What the loop of `ExecuteWithRollback` writes.
pub record Run (World : Type 0) : Type 0 where
  pub results : List StepResult
  pub applied_steps : List (Step World)
  pub failed : List (String × Bool)
  pub failed_result : Option StepResult
  pub cancelled : Bool
  pub world : World

abbrev pub or_false : Option Bool → Bool
or_false none = false
or_false (some b) = b

-- Whether one of the dependencies has failed.
unfoldable pub any_failed : List (String × Bool) → List String → Bool
any_failed failed_ids [] = false
any_failed failed_ids (dep_id ∷ deps) =
    if or_false (lookup dep_id failed_ids) then true else any_failed failed_ids deps

module _ {World : Type 0} where
  -- The bookkeeping behind a step's execution.
  unfoldable pub track : PlanEntry World → StepResult × World → Run World → Run World
  track entry (result, w) r =
      let r' : Run World = record r { results = r.results ++ result ∷ []; world = w } in
      if is_failed result.status
      then record r' { failed = put entry.step.id true r.failed; failed_result = some result }
      else if result.applied
      then record r' { applied_steps = r.applied_steps ++ entry.step ∷ [] }
      else r'

  -- After a cancellation the loop returns without a rollback.
  abbrev pub rollback_due : Executor → Run World → Bool
  rollback_due e r =
      not r.cancelled
      && (e.rollback_on_failure && (is_some r.failed_result && ltb 0 (length r.applied_steps)))

  abbrev pub start : World → Run World
  start w = record {
    results = [];
    applied_steps = [];
    failed = [];
    failed_result = none;
    cancelled = false;
    world = w;
  }

-- The errors that `Execute` joins: the ID of the step, and its error's text.
unfoldable pub step_errors : List StepResult → List (String × Option String)
step_errors [] = []
step_errors (r ∷ rs) =
    let rest = step_errors rs in if is_failed r.status then (r.step_id, r.error) ∷ rest else rest

module _ {World : Type 0} (ctx : GoContext World) where
  abbrev pub race : Option World → Option String × World → Option String × World
  race none applied = applied
  race (some w) applied = (some ctx.error_text, w)

  unfoldable pub apply_with_cancellation : Step World → World → Option String × World
  apply_with_cancellation step w = race (ctx.interrupted step w) (step.apply w)

  abbrev pub after_apply : PlanEntry World → World → Option String × World → StepResult × World
  after_apply entry w (some message, w') = (
    record (new_step_result entry.step.id failed (some message)) {
      duration = ctx.now w' - ctx.now w;
    },
    w',
  )
  after_apply entry w (none, w') = (
    record (new_step_result entry.step.id satisfied none) {
      duration = ctx.now w' - ctx.now w;
      diff = entry.diff;
      applied = true;
    },
    w',
  )

  unfoldable pub execute_entry :
      Bool → PlanEntry World → List (String × Bool) → World → StepResult × World
  unfolding apply_with_cancellation new_step_result
  execute_entry dry_run entry failed_ids w =
      if any_failed failed_ids entry.step.depends_on
      then (new_step_result entry.step.id skipped none, w)
      else if is_satisfied entry.status
      then (new_step_result entry.step.id satisfied none, w)
      else if dry_run
      then (record (new_step_result entry.step.id entry.status none) { diff = entry.diff }, w)
      else after_apply entry w (apply_with_cancellation entry.step w)

  unfoldable pub run_entries : Executor → List (PlanEntry World) → Run World → Run World
  unfolding execute_entry track
  run_entries e [] r = r
  run_entries e (entry ∷ entries) r =
      let out = execute_entry e.dry_run entry r.failed r.world in
      let rest = run_entries e entries (track entry out r) in
      if ctx.is_done (length r.results) r.world
      then record r { cancelled = true }
      else if is_failed out.0.status && e.rollback_on_failure
      then track entry out r
      else rest

  abbrev pub after_rollback : String → World → Option String × World → RollbackResult × World
  after_rollback id w (some message, w') = (
    record {
      step_id = id;
      success = false;
      error = some message;
      duration = ctx.now w' - ctx.now w;
    },
    w',
  )
  after_rollback id w (none, w') =
      (record { step_id = id; success = true; error = none; duration = ctx.now w' - ctx.now w }, w')

  abbrev pub rollback_ref : String → Option (Rollbackable World) → World → RollbackResult × World
  rollback_ref id none w = (record { step_id = id; success = false; error = none; duration = 0 }, w)
  rollback_ref id (some s) w =
      if s.can_rollback w
      then after_rollback id w (s.rollback w)
      else (record { step_id = id; success = false; error = none; duration = 0 }, w)

  unfoldable pub rollback_each :
      List (Step World) → List RollbackResult → World → List RollbackResult × World
  rollback_each [] results w = (results, w)
  rollback_each (step ∷ steps) results w =
      let (result, w') = rollback_ref step.id step.rollbackable w in
      rollback_each steps (results ++ result ∷ []) w'

  -- In reverse order.
  unfoldable pub rollback_steps : List (Step World) → World → List RollbackResult × World
  unfolding rollback_each
  rollback_steps steps w = rollback_each (reverse steps) [] w

  -- What follows the loop.
  unfoldable pub conclude : Executor → Run World → ExecuteResult × World
  conclude e r =
      if rollback_due e r
      then (let (rolled, w) = rollback_steps r.applied_steps r.world in
          (record { results = r.results; rollback_results = rolled; rolled_back = true }, w))
      else (record { results = r.results; rollback_results = []; rolled_back = false }, r.world)

  unfoldable pub execute_with_rollback : Executor → Plan World → World → ExecuteResult × World
  unfolding run_entries conclude
  execute_with_rollback e plan w = conclude e (run_entries e plan.entries (start w))

  unfoldable pub execute :
      Executor → Plan World → World → (List StepResult × List (String × Option String)) × World
  unfolding execute_with_rollback step_errors
  execute e plan w =
      let (result, w') = execute_with_rollback e plan w in
      ((result.results, step_errors result.results), w')
