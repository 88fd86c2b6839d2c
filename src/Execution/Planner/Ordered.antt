-- ===== src/Execution/Planner/Ordered.antt =====
-- The plan that is made of a graph.
use preflight.Base.{
  List, Option, String, [], ap, inl, inr, refl, some, ◌∙◌, ◌∷◌, ◌≡◌, ◌⊎◌, Bool, sym, Has,
  Option-cases, subst, true, arith, eq_iff, member, member-count,
}
use preflight.GoMap.Laws.{count-keys}
use preflight.GoMap.{lookup, has}
use preflight.Compiler.Step.{Step}
use preflight.Compiler.StepGraph.{StepGraph, cyclic_dependency}
use preflight.Compiler.StepGraph.Invariant.{IsGraph}
use preflight.Compiler.Sort.Loop.{refs}
use preflight.Compiler.Sort.Correct.{IsStuck, IsTopological, topological_sort_lem}
use preflight.Execution.Planner.Steps.{somes, PlansTo, behind, plan_steps-Continues}
use preflight.Execution.Plan.{Plan, PlanEntry, new_execution_plan}
use preflight.Execution.Planner.{PlanResult, planned, stopped, sort_failed, plan_steps, make_plan}

member-Has : (b : String) (xs : List String) → Has b xs → member b xs ≡ true
member-Has b [] h = absurd h
member-Has b (x ∷ xs) h = ground (arith, eq_iff x b, member-Has b xs)

module _ {World : Type 0} where
  abbrev pub steps_of : List (PlanEntry World) → List (Option (Step World))
  steps_of [] = []
  steps_of (e ∷ es) = some e.step ∷ steps_of es

  -- The entries of what planning gives.
  abbrev pub entries_of : PlanResult (Plan World) → PlanResult (List (PlanEntry World))
  entries_of (planned p) = planned p.entries
  entries_of (stopped x) = stopped x

  entries_of-behind :
      (q : PlanResult (List (PlanEntry World))) → entries_of (behind new_execution_plan q) ≡ q
  unfolding new_execution_plan
  entries_of-behind (planned es) = refl
  entries_of-behind (stopped x) = refl

  -- The steps of the graph are planned, each once, in an order that respects the dependencies.
  abbrev pub IsOrderedPlan : StepGraph World → World → PlanResult (Plan World) × World → Type 0
  IsOrderedPlan g w (r, w') =
      (order : List String) × (ss : List (Step World)) × IsTopological g order
      × (refs g order ≡ somes ss)
      × PlansTo ss w (entries_of r) w'

  PlansTo-steps_of :
      (ss : List (Step World)) (w w' : World) (es : List (PlanEntry World))
      → PlansTo ss w (planned es) w'
      → steps_of es ≡ somes ss
  PlansTo-steps_of [] w w' es (e, _) = ap_steps es e
    where
      ap_steps : (es : List (PlanEntry World)) → planned es ≡ planned [] → steps_of es ≡ []
      ap_steps [] e = refl
      ap_steps (x ∷ es) e = cc
  PlansTo-steps_of (s ∷ ss) w w' es (inl (x, e, _)) = cc
  PlansTo-steps_of (s ∷ ss) w w' [] (inr (e, v, planned qs, entered, plans, same)) = cc
  PlansTo-steps_of (s ∷ ss) w w' (x ∷ es) (inr (e, v, planned qs, (_, own, _, _), plans, same)) =
      let tail = PlansTo-steps_of ss v w' qs plans in
      let here : x ≡ e = cc in let rest : es ≡ qs = cc in rw (rest, tail, here, own) refl
  PlansTo-steps_of (s ∷ ss) w w' es (inr (e, v, stopped x, entered, plans, same)) = cc

  -- In a plan that is made, the entries are for the steps in their order.
  pub IsOrderedPlan-refs :
      (g : StepGraph World) (w w' : World) (p : Plan World)
      → IsOrderedPlan g w (planned p, w')
      → (order : List String) × (steps_of p.entries ≡ refs g order) × IsTopological g order
  IsOrderedPlan-refs g w w' p (order, ss, t, same, plans) =
      (order, PlansTo-steps_of ss w w' p.entries plans ∙ sym same, t)

  refs-somes :
      (g : StepGraph World) (order : List String)
      → ((b : String) → Has b order → has b g.steps ≡ true)
      → (ss : List (Step World)) × (refs g order ≡ somes ss)
  refs-somes g [] there = ([], refl)
  refs-somes g (x ∷ order) there =
      let (ss, rest) = refs-somes g order (λ b h. there b (inr h)) in
      elim (Option-cases (lookup x g.steps)) [
        | inl e ↦ absurd (cc (there x (inl refl), e))
        | inr (s, e) ↦ (s ∷ ss, rw (e, rest) refl)
      ]

  order_known :
      (g : StepGraph World) (order : List String)
      → IsGraph g
      → IsTopological g order
      → (b : String) → Has b order
      → has b g.steps ≡ true
  order_known g order graph t b h = ground (
    arith,
    member-Has b order h,
    member-count b order,
    t.complete b,
    count-keys b g.steps graph.steps_map,
  )

  -- For a graph that was built by `add_step`, planning always ends. Where some steps wait for one
  -- another it reports the cycle and leaves the machine alone. Otherwise the steps of the graph are
  -- planned, each once, in an order in which every step stands behind its dependencies: each step's
  -- check gives the status of its entry, and the step's plan the difference where it has to be
  -- applied; the first of them that fails ends planning with its error, and if none fails the
  -- entries are those of all steps, in this order.
  pub make_plan_lem :
      (g : StepGraph World) (w : World)
      → IsGraph g
      → ((among : String → Bool) × IsStuck g among
          × (make_plan g w ≡ some (stopped (sort_failed cyclic_dependency), w)))
        ⊎ ((r : PlanResult (Plan World) × World) × (make_plan g w ≡ some r) × IsOrderedPlan g w r)
  unfolding make_plan
  make_plan_lem g w graph = elim (topological_sort_lem g graph) [
    | inl (order, sorted, t) ↦
        let (ss, same) = refs-somes g order (order_known g order graph t) in
        let r = plan_steps (somes ss) new_execution_plan w in
        let (q, plans, made) = plan_steps-Continues ss new_execution_plan w in
        inr (
          r,
          rw (sorted, same) refl,
          (
            order,
            ss,
            t,
            same,
            subst (λ x. PlansTo ss w x r.1) (sym (ap entries_of made ∙ entries_of-behind q)) plans,
          ),
        )
    | inr (among, cyclic, stuck) ↦ inl (among, stuck, rw cyclic refl)
  ]
