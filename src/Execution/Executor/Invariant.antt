-- ===== src/Execution/Executor/Invariant.antt =====
-- What the executor's bookkeeping says of the results so far.
use preflight.Base.{
  Bool, Bool-cases, List, Option, String, [], ap, arith, false, if◌then◌else◌, inl, inr, none, refl,
  some, str_eq, true, ◌&&◌, ◌++◌, ◌||◌, ◌∷◌, ◌≡◌, length,
}
use preflight.GoMap.{lookup, is_some}
use mathlib.Core.List.{append-nil}
use preflight.GoMap.Laws.{lookup-put}
use preflight.Compiler.Step.{Step, satisfied}
use preflight.Execution.Plan.{PlanEntry, is_failed, StepResult, is_satisfied, new_step_result}
use preflight.Execution.Executor.{
  Executor, GoContext, Run, after_apply, any_failed, apply_with_cancellation, execute_entry,
  or_false, run_entries, start, track,
}

-- A step with that ID has failed.
abbrev pub has_failed : String → List StepResult → Bool
has_failed k [] = false
has_failed k (r ∷ rs) = (str_eq r.step_id k && is_failed r.status) || has_failed k rs

abbrev pub any_failure : List StepResult → Bool
any_failure [] = false
any_failure (r ∷ rs) = is_failed r.status || any_failure rs

-- The steps whose `Apply` has changed the machine, in order.
abbrev pub applied_ids : List StepResult → List String
applied_ids [] = []
applied_ids (r ∷ rs) = if r.applied then r.step_id ∷ applied_ids rs else applied_ids rs

pub has_failed-append :
    (k : String) (xs ys : List StepResult)
    → has_failed k (xs ++ ys) ≡ (has_failed k xs || has_failed k ys)
has_failed-append k [] ys = refl
has_failed-append k (x ∷ xs) ys = ground (arith, has_failed-append k xs ys)

pub any_failure-append :
    (xs ys : List StepResult) → any_failure (xs ++ ys) ≡ (any_failure xs || any_failure ys)
any_failure-append [] ys = refl
any_failure-append (x ∷ xs) ys = ground (arith, any_failure-append xs ys)

pub applied_ids-append :
    (xs ys : List StepResult) → applied_ids (xs ++ ys) ≡ applied_ids xs ++ applied_ids ys
applied_ids-append [] ys = refl
applied_ids-append (x ∷ xs) ys = ground (arith, applied_ids-append xs ys)

module _ {World : Type 0} where
  abbrev pub ids : List (Step World) → List String
  ids [] = []
  ids (s ∷ ss) = s.id ∷ ids ss

  pub ids-append : (xs ys : List (Step World)) → ids (xs ++ ys) ≡ ids xs ++ ids ys
  ids-append [] ys = refl
  ids-append (x ∷ xs) ys = ap (λ l. x.id ∷ l) (ids-append xs ys)

  pub record IsRun (r : Run World) : Type 0 where
    pub failed_exact : (k : String) → or_false (lookup k r.failed) ≡ has_failed k r.results
    pub applied_exact : ids r.applied_steps ≡ applied_ids r.results
    pub failure_exact : is_some r.failed_result ≡ any_failure r.results

  -- A result that `executeEntry` can give for an entry.
  pub record IsResultOf (entry : PlanEntry World) (result : StepResult) : Type 0 where
    pub same_id : result.step_id ≡ entry.step.id
    pub applied_satisfied : result.applied ≡ true → result.status ≡ satisfied

  pub start-IsRun : (w : World) → IsRun (start w)
  unfolding lookup
  start-IsRun w = record { failed_exact = λ k. refl; applied_exact = refl; failure_exact = refl }

  pub track-IsRun :
      (entry : PlanEntry World) (result : StepResult) (w : World) (r : Run World)
      → IsResultOf entry result
      → IsRun r
      → IsRun (track entry (result, w) r)
  unfolding track
  track-IsRun entry result w r o h = record {
    failed_exact = λ k. ground (
      arith,
      h.failed_exact k,
      has_failed-append k r.results (result ∷ []),
      lookup-put k entry.step.id true r.failed,
      o.same_id,
    );
    applied_exact = ground (
      arith,
      h.applied_exact,
      applied_ids-append r.results (result ∷ []),
      ids-append r.applied_steps (entry.step ∷ []),
      o.same_id,
      o.applied_satisfied,
      append-nil (applied_ids r.results),
    );
    failure_exact = ground (arith, h.failure_exact, any_failure-append r.results (result ∷ []));
  }

module _ {World : Type 0} (ctx : GoContext World) where
  after_apply-IsResultOf :
      (entry : PlanEntry World) (w : World) (out : Option String × World)
      → IsResultOf entry (after_apply ctx entry w out).0
  unfolding new_step_result
  after_apply-IsResultOf entry w (none, w') = record {
    same_id = refl;
    applied_satisfied = λ _. refl;
  }
  after_apply-IsResultOf entry w (some m, w') = record {
    same_id = refl;
    applied_satisfied = λ e. cc;
  }

  pub execute_entry-IsResultOf :
      (dry_run : Bool) (entry : PlanEntry World) (failed_ids : List (String × Bool)) (w : World)
      → IsResultOf entry (execute_entry ctx dry_run entry failed_ids w).0
  unfolding execute_entry
  execute_entry-IsResultOf dry_run entry failed_ids w =
      elim (Bool-cases (any_failed failed_ids entry.step.depends_on)) [
        | inl bad ↦ rw bad (record { same_id = refl; applied_satisfied = λ e. cc })
        | inr fine ↦ elim (Bool-cases (is_satisfied entry.status)) [
          | inl met ↦ rw (fine, met) (record { same_id = refl; applied_satisfied = λ e. cc })
          | inr unmet ↦ elim (Bool-cases dry_run) [
            | inl dry ↦
                rw (fine, unmet, dry) (record { same_id = refl; applied_satisfied = λ e. cc })
            | inr wet ↦
                rw (fine, unmet, wet)
                  (after_apply-IsResultOf entry w (apply_with_cancellation ctx entry.step w))
          ]
        ]
      ]

  cancel-IsRun : (r : Run World) → IsRun r → IsRun (record r { cancelled = true })
  cancel-IsRun r h = record {
    failed_exact = h.failed_exact;
    applied_exact = h.applied_exact;
    failure_exact = h.failure_exact;
  }

  pub run_entries-IsRun :
      (e : Executor) (entries : List (PlanEntry World)) (r : Run World)
      → IsRun r
      → IsRun (run_entries ctx e entries r)
  unfolding run_entries
  run_entries-IsRun e [] r h = h
  run_entries-IsRun e (entry ∷ entries) r h =
      let out = execute_entry ctx e.dry_run entry r.failed r.world in
      let next =
        track-IsRun entry out.0 out.1 r (execute_entry-IsResultOf e.dry_run entry r.failed r.world)
          h in
      elim (Bool-cases (ctx.is_done (length r.results) r.world)) [
        | inl over ↦ rw over (cancel-IsRun r h)
        | inr going ↦ elim (Bool-cases (is_failed out.0.status && e.rollback_on_failure)) [
          | inl broken ↦ rw (going, broken) next
          | inr fine ↦ rw (going, fine) (run_entries-IsRun e entries (track entry out r) next)
        ]
      ]
