-- ===== src/Execution/Pipeline.antt =====
-- The execution of a plan that the planner has made of a graph.
use preflight.Base.{List, String, [], false, inl, inr, refl, some, subst, sym, ◌++◌, ◌∷◌, ◌≡◌}
use preflight.GoMap.{lookup}
use preflight.Compiler.StepGraph.{StepGraph}
use preflight.Compiler.StepGraph.Invariant.{IsGraph}
use preflight.Compiler.Sort.Loop.{refs}
use preflight.Compiler.Sort.Correct.{StandsAfterDeps}
use preflight.Execution.Plan.{Plan, PlanEntry, StepResult}
use preflight.Execution.Planner.{make_plan, planned}
use preflight.Execution.Planner.Ordered.{make_plan_lem, IsOrderedPlan, steps_of, IsOrderedPlan-refs}
use preflight.Execution.Executor.{Executor, GoContext, execute_with_rollback}
use preflight.Execution.Executor.Skips.{Explains, execute_with_rollback-Explains}

abbrev pub result_ids : List StepResult → List String
result_ids [] = []
result_ids (r ∷ rs) = r.step_id ∷ result_ids rs

module _ {World : Type 0} where
  abbrev entry_ids : List (PlanEntry World) → List String
  entry_ids [] = []
  entry_ids (e ∷ es) = e.step.id ∷ entry_ids es

module _ {World : Type 0} (g : StepGraph World) where
  entry_ids_lem :
      (es : List (PlanEntry World)) (order : List String)
      → IsGraph g
      → steps_of es ≡ refs g order
      → entry_ids es ≡ order
  entry_ids_lem [] [] graph e = refl
  entry_ids_lem [] (x ∷ order) graph e = cc
  entry_ids_lem (y ∷ es) [] graph e = cc
  entry_ids_lem (y ∷ es) (x ∷ order) graph e =
      let here : lookup x g.steps ≡ some y.step = cc in
      let later : steps_of es ≡ refs g order = cc in
      let same = (graph.own x y.step here).0 in let rest = entry_ids_lem es order graph later in cc

  Explains-StandsAfterDeps :
      (seen : List String) (before : List StepResult) (es : List (PlanEntry World))
      (rs : List StepResult)
      → Explains before es rs
      → StandsAfterDeps g seen (entry_ids es)
      → StandsAfterDeps g seen (result_ids rs)
  Explains-StandsAfterDeps seen before es [] h t = tt
  Explains-StandsAfterDeps seen before [] (r ∷ rs) h t = absurd h
  Explains-StandsAfterDeps seen before (e ∷ es) (r ∷ rs) (same, _, h) (met, t) =
      rw same (met, Explains-StandsAfterDeps (seen ++ e.step.id ∷ []) (before ++ r ∷ []) es rs h t)

  -- In an execution, outside a dry run, of a plan that the planner has made of a graph built by
  -- `add_step`, every step has its result behind those of all its dependencies in the graph.
  pub pipeline_lem :
      (ctx : GoContext World) (e : Executor) (plan : Plan World) (w planned_w start_w : World)
      → IsGraph g
      → make_plan g w ≡ some (planned plan, planned_w)
      → e.dry_run ≡ false
      → StandsAfterDeps g [] (result_ids (execute_with_rollback ctx e plan start_w).0.results)
  pipeline_lem ctx e plan w planned_w start_w graph made wet = elim (make_plan_lem g w graph) [
    | inl (among, stuck, stops) ↦ cc (made, stops)
    | inr (r, ends, h) ↦
        let same : r ≡ (planned plan, planned_w) = cc in
        let (order, steps, t) =
          IsOrderedPlan-refs g w planned_w plan (subst (IsOrderedPlan g w) same h) in
        let ids = entry_ids_lem plan.entries order graph steps in
        Explains-StandsAfterDeps [] [] plan.entries
          (execute_with_rollback ctx e plan start_w).0.results
          (execute_with_rollback-Explains ctx e plan start_w wet)
          (subst (StandsAfterDeps g []) (sym ids) t.after_deps)
  ]
