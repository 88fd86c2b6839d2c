-- ===== src/Execution/Planner/Steps.antt =====
-- What planning does, step by step.
use mathlib.Core.List.{append-nil, append_assoc}
use preflight.Base.{
  List, Option, String, [], ap, inl, inr, none, refl, some, ◌++◌, ◌∙◌, ◌∷◌, ◌≡◌, ◌⊎◌, Bool-cases,
  true, ◌≢◌,
}
use preflight.Compiler.Diff.{Diff, zero_diff}
use preflight.Compiler.Step.{Step, StepStatus, failed, needs_apply, satisfied, skipped, unknown}
use preflight.Execution.Plan.{Plan, PlanEntry, add_entry, is_needs_apply}
use preflight.Execution.Planner.{
  PlanResult, planned, stopped, plan_step, plan_steps, after_entry, after_check, after_plan,
  PlanError, check_failed, plan_failed,
}

needs_apply_lem : (status : StepStatus) → is_needs_apply status ≡ true → status ≡ needs_apply
needs_apply_lem needs_apply h = refl
needs_apply_lem satisfied h = cc
needs_apply_lem unknown h = cc
needs_apply_lem failed h = cc
needs_apply_lem skipped h = cc

module _ {World : Type 0} where
  abbrev pub somes : List (Step World) → List (Option (Step World))
  somes [] = []
  somes (s ∷ ss) = some s ∷ somes ss

  -- Planning a step at `w` makes the entry and leaves `w'`: the step's check gives the status, and
  -- the step's plan the difference if it has to be applied.
  abbrev pub IsEntered : Step World → World → PlanEntry World → World → Type 0
  IsEntered s w e w' =
      (v : World) × (e.step ≡ s)
      × (s.check w ≡ ((e.status, none), v))
      × (((e.status ≡ needs_apply) × (s.plan v ≡ ((e.diff, none), w')))
          ⊎ ((e.status ≢ needs_apply) × (e.diff ≡ zero_diff) × (w' ≡ v)))

  -- Planning a step at `w` ends with an error: that of its check, or that of its plan.
  abbrev pub IsRefused : Step World → World → PlanError → World → Type 0
  IsRefused s w x w' =
      ((status : StepStatus) × (m : String) × (s.check w ≡ ((status, some m), w'))
        × (x ≡ check_failed s.id m))
      ⊎ ((v : World) × (d : Diff) × (m : String) × (s.check w ≡ ((needs_apply, none), v))
          × (s.plan v ≡ ((d, some m), w'))
          × (x ≡ plan_failed s.id m))

  abbrev pub put_first :
      PlanEntry World → PlanResult (List (PlanEntry World)) → PlanResult (List (PlanEntry World))
  put_first e (planned es) = planned (e ∷ es)
  put_first e (stopped x) = stopped x

  -- Planning the steps one behind the other gives their entries, or the first error.
  abbrev pub PlansTo :
      List (Step World) → World → PlanResult (List (PlanEntry World)) → World → Type 0
  PlansTo [] w r w' = (r ≡ planned []) × (w' ≡ w)
  PlansTo (s ∷ ss) w r w' =
      ((x : PlanError) × (r ≡ stopped x) × IsRefused s w x w')
      ⊎ ((e : PlanEntry World) × (v : World) × (q : PlanResult (List (PlanEntry World))) × IsEntered
            s w e v
          × PlansTo ss v q w'
          × (r ≡ put_first e q))

  abbrev IsStepResult : Step World → World → PlanResult (PlanEntry World) × World → Type 0
  IsStepResult s w (planned e, w') = IsEntered s w e w'
  IsStepResult s w (stopped x, w') = IsRefused s w x w'

  after_plan-IsStepResult :
      (s : Step World) (status : StepStatus) (w v : World) (out : (Diff × Option String) × World)
      → s.check w ≡ ((status, none), v)
      → status ≡ needs_apply
      → s.plan v ≡ out
      → IsStepResult s w (after_plan s status out)
  after_plan-IsStepResult s status w v ((d, none), w') checked needed e =
      (v, refl, checked, inl (needed, e))
  after_plan-IsStepResult s status w v ((d, some m), w') checked needed e =
      inr (v, d, m, cc, e, refl)

  after_check-IsStepResult :
      (s : Step World) (w : World) (out : (StepStatus × Option String) × World)
      → s.check w ≡ out
      → IsStepResult s w (after_check s out)
  after_check-IsStepResult s w ((status, some m), w') e = inl (status, m, e, refl)
  after_check-IsStepResult s w ((status, none), v) e = elim (Bool-cases (is_needs_apply status)) [
    | inl needed ↦
        rw needed
          (after_plan-IsStepResult s status w v (s.plan v) e (needs_apply_lem status needed) refl)
    | inr quiet ↦ rw quiet (v, refl, e, inr (λ h. cc (quiet, ap is_needs_apply h), refl, refl))
  ]

  plan_step-IsStepResult : (s : Step World) (w : World) → IsStepResult s w (plan_step s w)
  unfolding plan_step
  plan_step-IsStepResult s w = after_check-IsStepResult s w (s.check w) refl

  -- The entries behind those of an earlier plan.
  abbrev pub behind : Plan World → PlanResult (List (PlanEntry World)) → PlanResult (Plan World)
  behind p (planned es) = planned (record { entries = p.entries ++ es })
  behind p (stopped x) = stopped x

  behind-add_entry :
      (p : Plan World) (e : PlanEntry World) (q : PlanResult (List (PlanEntry World)))
      → behind (add_entry e p) q ≡ behind p (put_first e q)
  unfolding add_entry
  behind-add_entry p e (planned es) = rw (append_assoc p.entries (e ∷ []) es) refl
  behind-add_entry p e (stopped x) = refl

  abbrev pub Continues :
      List (Step World) → Plan World → World → PlanResult (Plan World) × World → Type 0
  Continues ss p w (r, w') =
      (q : PlanResult (List (PlanEntry World))) × PlansTo ss w q w' × (r ≡ behind p q)

  after_entry-Continues :
      (s : Step World) (ss : List (Step World)) (p : Plan World) (w : World)
      (out : PlanResult (PlanEntry World) × World)
      → IsStepResult s w out
      → ((p' : Plan World) (v : World) → Continues ss p' v (plan_steps (somes ss) p' v))
      → Continues (s ∷ ss) p w (after_entry out p (plan_steps (somes ss)))
  after_entry-Continues s ss p w (stopped x, w') refused rest =
      (stopped x, inl (x, refl, refused), refl)
  after_entry-Continues s ss p w (planned e, v) entered rest =
      let (q, plans, same) = rest (add_entry e p) v in
      (put_first e q, inr (e, v, q, entered, plans, refl), same ∙ behind-add_entry p e q)

  pub plan_steps-Continues :
      (ss : List (Step World)) (p : Plan World) (w : World)
      → Continues ss p w (plan_steps (somes ss) p w)
  unfolding plan_steps
  plan_steps-Continues [] p w = (planned [], (refl, refl), rw (append-nil p.entries) refl)
  plan_steps-Continues (s ∷ ss) p w =
      after_entry-Continues s ss p w (plan_step s w) (plan_step-IsStepResult s w)
        (plan_steps-Continues ss)
