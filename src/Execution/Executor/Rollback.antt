-- ===== src/Execution/Executor/Rollback.antt =====
-- When a run is rolled back, and which steps.
use mathlib.Core.List.{append-nil, append_assoc}
use preflight.Base.{
  Bool-cases, List, [], ap, arith, false, if◌then◌else◌, inl, inr, length, ltb, refl, reverse,
  subst, sym, true, ◌&&◌, ◌++◌, ◌∙◌, ◌∷◌, ◌≡◌, ◌⊎◌,
}
use preflight.Compiler.Step.{Step}
use preflight.Execution.Executor.Undo.{Undoes, rollback_steps-Undoes}
use preflight.Execution.Executor.Invariant.{
  IsResultOf, IsRun, run_entries-IsRun, start-IsRun, any_failure-append, execute_entry-IsResultOf,
  any_failure,
}
use preflight.Execution.Plan.{is_failed, Plan, StepResult, PlanEntry}
use preflight.Execution.Executor.{
  ExecuteResult, rollback_due, start, conclude, execute_entry, rollback_steps,
  execute_with_rollback, Executor, run_entries, Run, track, GoContext,
}
use preflight.Execution.Executor.Skips.{results-track}

module _ {World : Type 0} where
  -- The steps of a plan whose results say that they were applied, in order.
  abbrev pub applied_of : List (PlanEntry World) → List StepResult → List (Step World)
  applied_of [] rs = []
  applied_of (e ∷ es) [] = []
  applied_of (e ∷ es) (r ∷ rs) = if r.applied then e.step ∷ applied_of es rs else applied_of es rs

  track-applied_steps :
      (entry : PlanEntry World) (out : StepResult × World) (r : Run World)
      → IsResultOf entry out.0
      → (track entry out r).applied_steps
        ≡ r.applied_steps ++ (if out.0.applied then entry.step ∷ [] else [])
  unfolding track
  track-applied_steps entry out r h =
      ground (arith, h.applied_satisfied, append-nil r.applied_steps)

  track-cancelled :
      (entry : PlanEntry World) (out : StepResult × World) (r : Run World)
      → (track entry out r).cancelled ≡ r.cancelled
  unfolding track
  track-cancelled entry out r = ground arith

  applied_of-cons :
      (entry : PlanEntry World) (entries : List (PlanEntry World)) (x : StepResult)
      (xs : List StepResult)
      → applied_of (entry ∷ entries) (x ∷ xs)
        ≡ (if x.applied then entry.step ∷ [] else []) ++ applied_of entries xs
  applied_of-cons entry entries x xs = elim (Bool-cases x.applied) [
    | inl e ↦ rw e refl
    | inr e ↦ rw e refl
  ]

module _ {World : Type 0} (ctx : GoContext World) where
  -- The steps that the loop has gathered are those that its results name.
  abbrev Gathers : List (PlanEntry World) → Run World → Run World → Type 0
  Gathers entries r r' =
      (new : List StepResult) × (r'.results ≡ r.results ++ new)
      × (r'.applied_steps ≡ r.applied_steps ++ applied_of entries new)

  Gathers-none : (entries : List (PlanEntry World)) (r : Run World) → Gathers entries r r
  Gathers-none [] r = ([], sym (append-nil r.results), sym (append-nil r.applied_steps))
  Gathers-none (e ∷ es) r = ([], sym (append-nil r.results), sym (append-nil r.applied_steps))

  Gathers-next :
      (entry : PlanEntry World) (entries : List (PlanEntry World)) (out : StepResult × World)
      (r r' : Run World)
      → IsResultOf entry out.0
      → Gathers entries (track entry out r) r'
      → Gathers (entry ∷ entries) r r'
  Gathers-next entry entries out r r' h (new, listed, steps) = (
    out.0 ∷ new,
    listed
        ∙ ap (λ l. l ++ new) (results-track ctx entry out r)
        ∙ append_assoc r.results (out.0 ∷ []) new,
    steps
        ∙ ap (λ l. l ++ applied_of entries new) (track-applied_steps entry out r h)
        ∙ append_assoc r.applied_steps (if out.0.applied then entry.step ∷ [] else [])
            (applied_of entries new)
        ∙ ap (λ l. r.applied_steps ++ l) (sym (applied_of-cons entry entries out.0 new)),
  )

  run_entries-Gathers :
      (e : Executor) (entries : List (PlanEntry World)) (r : Run World)
      → Gathers entries r (run_entries ctx e entries r)
  unfolding run_entries
  run_entries-Gathers e [] r = Gathers-none [] r
  run_entries-Gathers e (entry ∷ entries) r =
      let out = execute_entry ctx e.dry_run entry r.failed r.world in
      let fits = execute_entry-IsResultOf ctx e.dry_run entry r.failed r.world in
      elim (Bool-cases (ctx.is_done (length r.results) r.world)) [
        | inl over ↦ rw over (Gathers-none (entry ∷ entries) r)
        | inr going ↦ elim (Bool-cases (is_failed out.0.status && e.rollback_on_failure)) [
          | inl broken ↦
              rw (going, broken)
                (Gathers-next entry entries out r (track entry out r) fits
                  (Gathers-none entries (track entry out r)))
          | inr fine ↦
              rw (going, fine)
                (Gathers-next entry entries out r (run_entries ctx e entries (track entry out r))
                  fits (run_entries-Gathers e entries (track entry out r)))
        ]
      ]

  -- A loop that the context ends has met no failure, if a failure would have stopped it.
  cancelled_lem :
      (e : Executor) (entries : List (PlanEntry World)) (r : Run World)
      → e.rollback_on_failure ≡ true
      → r.cancelled ≡ false
      → any_failure r.results ≡ false
      → ((run_entries ctx e entries r).cancelled
          && any_failure (run_entries ctx e entries r).results)
        ≡ false
  unfolding run_entries
  cancelled_lem e [] r set on h = rw on refl
  cancelled_lem e (entry ∷ entries) r set on h =
      let out = execute_entry ctx e.dry_run entry r.failed r.world in
      let listed = results-track ctx entry out r in
      let kept = track-cancelled entry out r in
      elim (Bool-cases (ctx.is_done (length r.results) r.world)) [
        | inl over ↦ rw (over, h) refl
        | inr going ↦ elim (Bool-cases (is_failed out.0.status && e.rollback_on_failure)) [
          | inl broken ↦ rw (going, broken, kept, on) refl
          | inr fine ↦
              rw (going, fine)
                (cancelled_lem e entries (track entry out r) set (kept ∙ on) (
                  ap any_failure listed
                  ∙ ground (arith, fine, set, h, any_failure-append r.results (out.0 ∷ []))))
        ]
      ]

  -- What a run of the plan says of the rollback, and what it leaves.
  abbrev pub RolledBack : Executor → Plan World → World → ExecuteResult × World → Type 0
  RolledBack e plan w (out, w') =
      let steps = applied_of plan.entries out.results in
      let stopped = (run_entries ctx e plan.entries (start w)).world in
      (out.rolled_back
        ≡ (e.rollback_on_failure && (any_failure out.results && ltb 0 (length steps))))
      × (((out.rolled_back ≡ true) × Undoes (reverse steps) stopped out.rollback_results w')
          ⊎ ((out.rolled_back ≡ false) × (out.rollback_results ≡ []) × (w' ≡ stopped)))

  due_lem :
      (e : Executor) (r : Run World)
      → IsRun r
      → (e.rollback_on_failure ≡ true → (r.cancelled && any_failure r.results) ≡ false)
      → rollback_due e r
        ≡ (e.rollback_on_failure && (any_failure r.results && ltb 0 (length r.applied_steps)))
  due_lem e r h calm = elim (Bool-cases e.rollback_on_failure) [
    | inl set ↦ let quiet = calm set in ground (arith, quiet, set, h.failure_exact)
    | inr unset ↦ ground (arith, unset)
  ]

  -- A run is rolled back exactly if the executor is set to, a step has failed, and some step has
  -- been applied in this run. Then the steps that were applied are gone through in reverse order,
  -- from the machine that the run has left: one that supports a rollback, and says that it can be
  -- rolled back now, has its `Rollback` run on the machine, and its result has the error that this
  -- gives and is a success if there is none; for any other nothing happens, and its result is no
  -- success and has no error. Without a rollback the machine stays as the run has left it.
  pub execute_with_rollback-RolledBack :
      (e : Executor) (plan : Plan World) (w : World)
      → RolledBack e plan w (execute_with_rollback ctx e plan w)
  unfolding execute_with_rollback conclude
  execute_with_rollback-RolledBack e plan w =
      let r = run_entries ctx e plan.entries (start w) in
      let (new, listed, gathered) = run_entries-Gathers e plan.entries (start w) in
      let steps : r.applied_steps ≡ applied_of plan.entries r.results =
        gathered ∙ ap (applied_of plan.entries) (sym listed) in
      let due =
        due_lem e r (run_entries-IsRun ctx e plan.entries (start w) (start-IsRun w))
          (λ set. cancelled_lem e plan.entries (start w) set refl refl)
        ∙ ap (λ l. e.rollback_on_failure && (any_failure r.results && ltb 0 (length l))) steps in
      elim (Bool-cases (rollback_due e r)) [
        | inl yes_due ↦ rw yes_due (
          sym yes_due ∙ due,
          inl (
            refl,
            subst
                (λ l.
                  Undoes (reverse l) r.world (rollback_steps ctx r.applied_steps r.world).0
                    (rollback_steps ctx r.applied_steps r.world).1)
                steps (rollback_steps-Undoes ctx r.applied_steps r.world),
          ),
        )
        | inr undue ↦ rw undue (sym undue ∙ due, inr (refl, refl, refl))
      ]
