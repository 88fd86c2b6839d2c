-- ===== src/Execution/Executor/Runs.antt =====
-- Dry runs, and runs that stop at the first failure.
use preflight.Base.{
  Bool, Bool-cases, List, String, [], ap, arith, false, inl, inr, refl, true, ◌&&◌, ◌++◌, ◌↔◌, ◌∙◌,
  ◌∷◌, ◌≡◌, length, ◌+◌, ℕ,
}
use preflight.Execution.Plan.{PlanEntry, is_failed, Plan, StepResult, new_step_result}
use preflight.Execution.Executor.{
  Executor, GoContext, Run, conclude, execute, execute_entry, execute_with_rollback, run_entries,
  start, step_errors, track,
}
use preflight.Execution.Executor.Skips.{results-track, conclude-results}
use preflight.Execution.Executor.Invariant.{any_failure, any_failure-append}

-- Nothing has been applied to the machine.
record IsIdle {World : Type 0} (w : World) (r : Run World) : Type 0 where
  same_world : r.world ≡ w
  none_applied : r.applied_steps ≡ []

-- All results but the last.
abbrev pub init : List StepResult → List StepResult
init [] = []
init (r ∷ []) = []
init (r ∷ s ∷ rs) = r ∷ init (s ∷ rs)

init-snoc : (rs : List StepResult) (r : StepResult) → init (rs ++ r ∷ []) ≡ rs
init-snoc [] r = refl
init-snoc (x ∷ []) r = refl
init-snoc (x ∷ y ∷ rs) r = ap (λ l. x ∷ l) (init-snoc (y ∷ rs) r)

length-snoc : (rs : List StepResult) (r : StepResult) → length (rs ++ r ∷ []) ≡ length rs + 1
length-snoc [] r = refl
length-snoc (x ∷ rs) r = omega (arith, length-snoc rs r)

any_failure-init : (rs : List StepResult) → any_failure rs ≡ false → any_failure (init rs) ≡ false
any_failure-init [] h = refl
any_failure-init (x ∷ []) h = refl
any_failure-init (x ∷ y ∷ rs) h = ground (arith, any_failure-init (y ∷ rs))

module _ {World : Type 0} (ctx : GoContext World) where
  dry_entry :
      (entry : PlanEntry World) (failed_ids : List (String × Bool)) (w : World)
      → ((execute_entry ctx true entry failed_ids w).1 ≡ w)
        × ((execute_entry ctx true entry failed_ids w).0.applied ≡ false)
  unfolding execute_entry new_step_result
  dry_entry entry failed_ids w = (ground arith, ground arith)

  dry_track :
      (entry : PlanEntry World) (out : StepResult × World) (w : World) (r : Run World)
      → out.1 ≡ w
      → out.0.applied ≡ false
      → IsIdle w r
      → IsIdle w (track entry out r)
  unfolding track
  dry_track entry (result, w') w r same idle h = record {
    same_world = ground (arith, h.same_world);
    none_applied = ground (arith, h.none_applied);
  }

  dry_entries :
      (e : Executor) (entries : List (PlanEntry World)) (w : World) (r : Run World)
      → e.dry_run ≡ true
      → IsIdle w r
      → IsIdle w (run_entries ctx e entries r)
  unfolding run_entries
  dry_entries e [] w r dry h = h
  dry_entries e (entry ∷ entries) w r dry h =
      let out = execute_entry ctx e.dry_run entry r.failed r.world in
      let (same, idle) = dry_entry entry r.failed r.world in
      let next =
        dry_track entry out w r
          (ap (λ d. (execute_entry ctx d entry r.failed r.world).1) dry ∙ same ∙ h.same_world)
          (ap (λ d. (execute_entry ctx d entry r.failed r.world).0.applied) dry ∙ idle) h in
      elim (Bool-cases (ctx.is_done (length r.results) r.world)) [
        | inl over ↦ rw over (record { same_world = h.same_world; none_applied = h.none_applied })
        | inr going ↦ elim (Bool-cases (is_failed out.0.status && e.rollback_on_failure)) [
          | inl broken ↦ rw (going, broken) next
          | inr fine ↦ rw (going, fine) (dry_entries e entries w (track entry out r) dry next)
        ]
      ]

  conclude-idle :
      (e : Executor) (w : World) (r : Run World)
      → IsIdle w r
      → ((conclude ctx e r).1 ≡ w) × ((conclude ctx e r).0.rolled_back ≡ false)
  unfolding conclude
  conclude-idle e w r h =
      (ground (arith, h.same_world, h.none_applied), ground (arith, h.none_applied))

  -- A dry run leaves the machine as it was, and rolls nothing back.
  pub execute_with_rollback-dry_run :
      (e : Executor) (plan : Plan World) (w : World)
      → e.dry_run ≡ true
      → ((execute_with_rollback ctx e plan w).1 ≡ w)
        × ((execute_with_rollback ctx e plan w).0.rolled_back ≡ false)
  unfolding execute_with_rollback
  execute_with_rollback-dry_run e plan w dry =
      conclude-idle e w (run_entries ctx e plan.entries (start w)) (
        dry_entries e plan.entries w (start w) dry
          (record { same_world = refl; none_applied = refl }))

  stop_entries :
      (e : Executor) (entries : List (PlanEntry World)) (r : Run World)
      → e.rollback_on_failure ≡ true
      → any_failure r.results ≡ false
      → any_failure (init (run_entries ctx e entries r).results) ≡ false
  unfolding run_entries
  stop_entries e [] r set h = any_failure-init r.results h
  stop_entries e (entry ∷ entries) r set h =
      let out = execute_entry ctx e.dry_run entry r.failed r.world in
      let listed = results-track ctx entry out r in
      elim (Bool-cases (ctx.is_done (length r.results) r.world)) [
        | inl over ↦ rw over (any_failure-init r.results h)
        | inr going ↦ elim (Bool-cases (is_failed out.0.status && e.rollback_on_failure)) [
          | inl broken ↦
              rw (going, broken) (ap any_failure (ap init listed ∙ init-snoc r.results out.0) ∙ h)
          | inr fine ↦
              rw (going, fine)
                (stop_entries e entries (track entry out r) set (
                  ap any_failure listed
                  ∙ ground (arith, fine, set, h, any_failure-append r.results (out.0 ∷ []))))
        ]
      ]

  -- An executor that rolls back stops at the first failure: only the last result can be one.
  pub execute_with_rollback-stops :
      (e : Executor) (plan : Plan World) (w : World)
      → e.rollback_on_failure ≡ true
      → any_failure (init (execute_with_rollback ctx e plan w).0.results) ≡ false
  unfolding execute_with_rollback
  execute_with_rollback-stops e plan w set =
      rw (conclude-results ctx e (run_entries ctx e plan.entries (start w)))
        (stop_entries e plan.entries (start w) set refl)

  all_entries :
      (e : Executor) (entries : List (PlanEntry World)) (r : Run World)
      → e.rollback_on_failure ≡ false
      → ((n : ℕ) (w : World) → ctx.is_done n w ≡ false)
      → length (run_entries ctx e entries r).results ≡ length r.results + length entries
  unfolding run_entries
  all_entries e [] r unset going = omega arith
  all_entries e (entry ∷ entries) r unset going =
      let out = execute_entry ctx e.dry_run entry r.failed r.world in
      let listed = results-track ctx entry out r in
      let rest = all_entries e entries (track entry out r) unset going in
      let grown = ap length listed ∙ length-snoc r.results out.0 in
      let fine : (is_failed out.0.status && e.rollback_on_failure) ≡ false =
        ground (arith, unset) in
      rw (going (length r.results) r.world, fine) (omega (arith, rest, grown))

  -- If the context never ends and the executor does not roll back, every entry of the plan has a
  -- result, whatever has failed.
  pub execute_with_rollback-completes :
      (e : Executor) (plan : Plan World) (w : World)
      → e.rollback_on_failure ≡ false
      → ((n : ℕ) (w' : World) → ctx.is_done n w' ≡ false)
      → length (execute_with_rollback ctx e plan w).0.results ≡ length plan.entries
  unfolding execute_with_rollback
  execute_with_rollback-completes e plan w unset going =
      rw (conclude-results ctx e (run_entries ctx e plan.entries (start w)))
        (omega (arith, all_entries e plan.entries (start w) unset going))

  step_errors_none : (rs : List StepResult) → (step_errors rs ≡ []) ↔ (any_failure rs ≡ false)
  unfolding step_errors
  step_errors_none [] = (λ _. refl, λ _. refl)
  step_errors_none (r ∷ rs) =
      let (to, fro) = step_errors_none rs in
      (λ e. ground (arith, to, e), λ e. ground (arith, fro, e))

  -- `execute` reports no error exactly if none of its results is a failure.
  pub execute_errors :
      (e : Executor) (plan : Plan World) (w : World)
      → let (results, errors) = (execute ctx e plan w).0 in
        (errors ≡ []) ↔ (any_failure results ≡ false)
  unfolding execute
  execute_errors e plan w = step_errors_none (execute_with_rollback ctx e plan w).0.results
