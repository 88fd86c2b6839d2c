-- ===== src/Compiler/Compile/Sound.antt =====
-- What a compiled graph is good for.
use preflight.Compiler.Sort.Loop.{refs}
use preflight.Base.{
  Bool-cases, Has, List, Option, String, [], arith, inl, inr, none, refl, some, str_eq, true, ◌∷◌,
  ◌≡◌, ◌⊎◌,
}
use preflight.GoMap.{lookup, has}
use preflight.Compiler.Step.{Step}
use preflight.Compiler.StepGraph.{
  StepGraph, GraphError, add_step, first_missing, list_at, or_missing, validate, validate_entries,
  cyclic_dependency, new_step_graph,
}
use preflight.Compiler.StepGraph.Invariant.{IsGraph, add_step-IsGraph, new_step_graph-IsGraph}
use preflight.Compiler.Sort.{ok, topological_sort}
use preflight.Compiler.Sort.Correct.{IsTopological, topological_sort_lem}
use preflight.Compiler.Compile.{
  Provider, CompileError, Compiler, Outcome, add_providers, add_steps, after_add, after_compile,
  and_then, compile_with_context, done, fails, check_graph, invalid_graph,
}

-- An outcome whose graph, if there is one, keeps the invariant.
abbrev pub HasGraph : {World : Type 0} → Outcome (StepGraph World) → Type 0
HasGraph (done g) = IsGraph g
HasGraph (fails e) = Unit

module _ {World : Type 0} where
  after_add-HasGraph :
      (provider : String) (steps : List (Step World)) (step : Step World)
      (r : StepGraph World × Option GraphError)
      → IsGraph r.0
      → ((g : StepGraph World) → IsGraph g → HasGraph (add_steps provider steps g))
      → HasGraph (after_add provider step.id r (add_steps provider steps))
  after_add-HasGraph provider steps step (g, none) h rest = rest g h
  after_add-HasGraph provider steps step (g, some e) h rest = tt

  add_steps-HasGraph :
      (provider : String) (steps : List (Step World)) (g : StepGraph World)
      → IsGraph g
      → HasGraph (add_steps provider steps g)
  unfolding add_steps
  add_steps-HasGraph provider [] g h = h
  add_steps-HasGraph provider (step ∷ steps) g h =
      after_add-HasGraph provider steps step (add_step step g) (add_step-IsGraph step g h)
        (add_steps-HasGraph provider steps)

module _ {Context World : Type 0} (ctx : Context) where
  after_compile-HasGraph :
      (name : String) (r : List (Step World) × Option String) (g : StepGraph World)
      → IsGraph g
      → HasGraph (after_compile ctx name r g)
  after_compile-HasGraph name (steps, none) g h = add_steps-HasGraph name steps g h
  after_compile-HasGraph name (steps, some m) g h = tt

  and_then-HasGraph :
      (o : Outcome (StepGraph World)) (ps : List (Provider Context World))
      → HasGraph o
      → ((g : StepGraph World) → IsGraph g → HasGraph (add_providers ctx ps g))
      → HasGraph (and_then o (add_providers ctx ps))
  and_then-HasGraph (done g) ps h rest = rest g h
  and_then-HasGraph (fails e) ps h rest = tt

  pub add_providers-HasGraph :
      (ps : List (Provider Context World)) (g : StepGraph World)
      → IsGraph g
      → HasGraph (add_providers ctx ps g)
  unfolding add_providers
  add_providers-HasGraph [] g h = h
  add_providers-HasGraph (p ∷ ps) g h =
      and_then-HasGraph (after_compile ctx p.name (p.compile_steps ctx) g) ps
        (after_compile-HasGraph p.name (p.compile_steps ctx) g h) (add_providers-HasGraph ps)

-- Every dependency of every step is in the graph.
abbrev pub IsClosed : {World : Type 0} → StepGraph World → Type 0
IsClosed g = (b d : String) → Has d (list_at b g.depends_on) → has d g.steps ≡ true

module _ {World : Type 0} (g : StepGraph World) where
  first_missing-none :
      (deps : List String) (d : String)
      → first_missing g deps ≡ none
      → Has d deps
      → has d g.steps ≡ true
  unfolding first_missing
  first_missing-none [] d e h = absurd h
  first_missing-none (x ∷ xs) d e h = ground (arith, first_missing-none xs d)

  or_missing-none :
      (id : String) (o : Option String) (rest : Option GraphError)
      → or_missing id o rest ≡ none
      → (o ≡ none) × (rest ≡ none)
  or_missing-none id none rest e = (refl, e)
  or_missing-none id (some d) rest e = cc

  validate_entries-none :
      (m : List (String × List String)) (b d : String)
      → validate_entries g m ≡ none
      → Has d (list_at b m)
      → has d g.steps ≡ true
  unfolding validate_entries lookup
  validate_entries-none [] b d e h = absurd h
  validate_entries-none ((id, deps) ∷ m) b d e h =
      let (first, rest) = or_missing-none id (first_missing g deps) (validate_entries g m) e in
      elim (Bool-cases (str_eq id b)) [
        | inl same ↦ first_missing-none deps d first (rw same at h)
        | inr other ↦ validate_entries-none m b d rest (rw other at h)
      ]

  pub validate-IsClosed : validate g ≡ none → IsClosed g
  unfolding validate
  validate-IsClosed e b d h = validate_entries-none g.depends_on b d e h

module _ {World : Type 0} where
  -- A compiled graph is closed, and its sort succeeds with an order that respects dependencies.
  abbrev pub Compiled : Option (Outcome (StepGraph World)) → Type 0
  Compiled r =
      ((e : CompileError) × (r ≡ some (fails e)))
      ⊎ ((g : StepGraph World) × (r ≡ some (done g))
          × IsClosed g
          × (order : List String) × (topological_sort g ≡ some (ok (refs g order)))
          × IsTopological g order)

  checked :
      (g : StepGraph World) (o : Option GraphError)
      → IsGraph g
      → validate g ≡ o
      → Compiled (check_graph (done g))
  checked g (some e) h v = inl (invalid_graph e, rw v)
  checked g none h v = elim (topological_sort_lem g h) [
    | inl (order, sorted, t) ↦ inr (g, rw (v, sorted), validate-IsClosed g v, order, sorted, t)
    | inr (among, cyclic, stuck) ↦ inl (invalid_graph cyclic_dependency, rw (v, cyclic))
  ]

  check_graph-Compiled : (o : Outcome (StepGraph World)) → HasGraph o → Compiled (check_graph o)
  check_graph-Compiled (fails e) h = inl (e, refl)
  check_graph-Compiled (done g) h = checked g (validate g) h refl

-- Compilation always ends, with an error or with a graph. A graph that it returns has all
-- dependencies of its steps, and its sort succeeds, with an order of all steps in which each
-- stands behind its dependencies.
pub compile_lem :
    {Context World : Type 0} (c : Compiler Context World) (ctx : Context)
    → Compiled (compile_with_context c ctx)
unfolding compile_with_context
compile_lem c ctx =
    check_graph-Compiled (add_providers ctx c.providers new_step_graph)
      (add_providers-HasGraph ctx c.providers new_step_graph new_step_graph-IsGraph)
