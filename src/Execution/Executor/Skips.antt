-- ===== src/Execution/Executor/Skips.antt =====
-- Which steps of a plan are skipped.
use mathlib.Core.List.{append-nil, append_assoc}
use preflight.Base.{
  Bool, Bool-cases, List, Option, String, [], ap, arith, false, inl, inr, none, refl, some, subst,
  sym, true, ◌&&◌, ◌++◌, ◌||◌, ◌∙◌, ◌∷◌, ◌≡◌, length,
}
use preflight.Compiler.Step.{skipped, StepStatus}
use preflight.Execution.Plan.{PlanEntry, is_failed, Plan, StepResult, new_step_result}
use preflight.Execution.Executor.{
  Executor, GoContext, Run, after_apply, any_failed, apply_with_cancellation, conclude,
  execute_entry, execute_with_rollback, run_entries, start, track,
}
use preflight.Execution.Executor.Invariant.{
  IsRun, execute_entry-IsResultOf, has_failed, start-IsRun, track-IsRun,
}

abbrev pub is_skipped : StepStatus → Bool
is_skipped skipped = true
is_skipped _ = false

-- One of the steps with these IDs is among the failed results.
abbrev pub some_failed : List StepResult → List String → Bool
some_failed results [] = false
some_failed results (d ∷ ds) = has_failed d results || some_failed results ds

module _ {World : Type 0} where
  -- The results are those of the first entries, in order; and a step is skipped exactly if one
  -- of its own dependencies has failed before.
  abbrev pub Explains : List StepResult → List (PlanEntry World) → List StepResult → Type 0
  Explains before entries [] = Unit
  Explains before [] (r ∷ rs) = ⊥
  Explains before (e ∷ es) (r ∷ rs) =
      (r.step_id ≡ e.step.id)
      × (is_skipped r.status ≡ some_failed before e.step.depends_on)
      × Explains (before ++ r ∷ []) es rs

  any_failed-some_failed :
      (r : Run World) (deps : List String)
      → IsRun r
      → any_failed r.failed deps ≡ some_failed r.results deps
  unfolding any_failed
  any_failed-some_failed r [] h = refl
  any_failed-some_failed r (d ∷ ds) h =
      ground (arith, h.failed_exact d, any_failed-some_failed r ds h)

module _ {World : Type 0} (ctx : GoContext World) where
  after_apply-not_skipped :
      (entry : PlanEntry World) (w : World) (out : Option String × World)
      → is_skipped (after_apply ctx entry w out).0.status ≡ false
  unfolding new_step_result
  after_apply-not_skipped entry w (none, w') = refl
  after_apply-not_skipped entry w (some m, w') = refl

  execute_entry-skipped :
      (entry : PlanEntry World) (failed_ids : List (String × Bool)) (w : World)
      → is_skipped (execute_entry ctx false entry failed_ids w).0.status
        ≡ any_failed failed_ids entry.step.depends_on
  unfolding execute_entry new_step_result
  execute_entry-skipped entry failed_ids w =
      ground (arith, after_apply-not_skipped entry w (apply_with_cancellation ctx entry.step w))

  pub results-track :
      (entry : PlanEntry World) (out : StepResult × World) (r : Run World)
      → (track entry out r).results ≡ r.results ++ out.0 ∷ []
  unfolding track
  results-track entry (result, w) r = ground arith

  run_entries-Explains :
      (e : Executor) (entries : List (PlanEntry World)) (r : Run World)
      → e.dry_run ≡ false
      → IsRun r
      → (new : List StepResult) × ((run_entries ctx e entries r).results ≡ r.results ++ new)
        × Explains r.results entries new
  unfolding run_entries
  run_entries-Explains e [] r wet h = ([], sym (append-nil r.results), tt)
  run_entries-Explains e (entry ∷ entries) r wet h =
      let out = execute_entry ctx e.dry_run entry r.failed r.world in
      let of_entry = execute_entry-IsResultOf ctx e.dry_run entry r.failed r.world in
      let skips : is_skipped out.0.status ≡ some_failed r.results entry.step.depends_on = rw wet (
        execute_entry-skipped entry r.failed r.world
        ∙ any_failed-some_failed r entry.step.depends_on h) in
      let listed = results-track entry out r in
      elim (Bool-cases (ctx.is_done (length r.results) r.world)) [
        | inl over ↦ rw over ([], sym (append-nil r.results), tt)
        | inr going ↦ elim (Bool-cases (is_failed out.0.status && e.rollback_on_failure)) [
          | inl broken ↦ rw (going, broken) (out.0 ∷ [], listed, (of_entry.same_id, skips, tt))
          | inr fine ↦
              let (new, more, rest) =
                run_entries-Explains e entries (track entry out r) wet
                  (track-IsRun entry out.0 out.1 r of_entry h) in
              rw (going, fine)
                (
                  out.0 ∷ new,
                  more ∙ ap (λ l. l ++ new) listed ∙ append_assoc r.results (out.0 ∷ []) new,
                  (of_entry.same_id, skips, subst (λ l. Explains l entries new) listed rest),
                )
        ]
      ]

  pub conclude-results : (e : Executor) (r : Run World) → (conclude ctx e r).0.results ≡ r.results
  unfolding conclude
  conclude-results e r = ground arith

  -- Outside a dry run the results of an execution are those of the first entries of the plan, in
  -- order, and a step is skipped exactly if one of its own dependencies has failed before it.
  pub execute_with_rollback-Explains :
      (e : Executor) (plan : Plan World) (w : World)
      → e.dry_run ≡ false
      → Explains [] plan.entries (execute_with_rollback ctx e plan w).0.results
  unfolding execute_with_rollback
  execute_with_rollback-Explains e plan w wet =
      let (new, listed, good) = run_entries-Explains e plan.entries (start w) wet (start-IsRun w) in
      rw (conclude-results e (run_entries ctx e plan.entries (start w)), listed) good
