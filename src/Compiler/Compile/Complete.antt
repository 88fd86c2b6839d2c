-- ===== src/Compiler/Compile/Complete.antt =====
-- When compilation succeeds.
use preflight.Base.{
  Has, List, String, Bool, [], eq_iff, inl, inr, none, refl, some, subst, true, ◌∷◌, ◌≡◌,
  Bool-cases, Option, false, str_eq,
}
use preflight.GoMap.{has, IsMap, lookup, is_some}
use preflight.Compiler.StepGraph.{
  StepGraph, first_missing, list_at, validate, new_step_graph, validate_entries, or_nil,
}
use preflight.Compiler.StepGraph.Invariant.{IsGraph, new_step_graph-IsGraph}
use preflight.Compiler.Sort.{topological_sort}
use preflight.Compiler.Sort.Correct.{IsStuck, topological_sort_lem}
use preflight.Compiler.Compile.{Compiler, add_providers, compile_with_context, after_sort, done}
use preflight.Compiler.Compile.Sound.{IsClosed, HasGraph, add_providers-HasGraph}

absent_deps : (b : String) (m : List (String × List String)) → has b m ≡ false → list_at b m ≡ []
absent_deps b m h = go (lookup b m) h
  where
    go : (o : Option (List String)) → is_some o ≡ false → or_nil o ≡ []
    go none e = refl
    go (some x) e = cc

module _ {World : Type 0} (g : StepGraph World) where
  none_missing :
      (deps : List String)
      → ((d : String) → Has d deps → has d g.steps ≡ true)
      → first_missing g deps ≡ none
  unfolding first_missing
  none_missing [] h = refl
  none_missing (x ∷ xs) h = rw (h x (inl refl)) (none_missing xs (λ d later. h d (inr later)))

  validate_entries_lem :
      (m : List (String × List String))
      → IsMap m
      → ((b d : String) → Has d (list_at b m) → has d g.steps ≡ true)
      → validate_entries g m ≡ none
  unfolding validate_entries lookup
  validate_entries_lem [] is_map h = refl
  validate_entries_lem ((id, deps) ∷ m) (fresh, is_map) h =
      let own : (d : String) → Has d deps → has d g.steps ≡ true =
        λ d here. h id d (rw ((eq_iff id id).1 refl) here) in
      let later : (b d : String) → Has d (list_at b m) → has d g.steps ≡ true = λ b d here.
        elim (Bool-cases (str_eq id b)) [
          | inl same ↦
              let gone = subst (λ j. has j m ≡ false) ((eq_iff id b).0 same) fresh in
              absurd (subst (Has d) (absent_deps b m gone) here)
          | inr other ↦ h b d (rw other here)
        ] in
      rw (none_missing deps own) (validate_entries_lem m is_map later)

  IsClosed-validate : IsGraph g → IsClosed g → validate g ≡ none
  unfolding validate
  IsClosed-validate graph closed = validate_entries_lem g.depends_on graph.deps_map closed

  not_stuck_sorts :
      IsGraph g
      → ((among : String → Bool) → IsStuck g among → ⊥)
      → after_sort g (topological_sort g) ≡ some (done g)
  not_stuck_sorts graph free = elim (topological_sort_lem g graph) [
    | inl (order, sorted, t) ↦ rw sorted refl
    | inr (among, cyclic, stuck) ↦ absurd (free among stuck)
  ]

-- If the steps of all providers go into a graph that has all dependencies of its steps and no
-- steps that wait for one another, compilation returns this graph.
pub compile_complete :
    {Context World : Type 0} (c : Compiler Context World) (ctx : Context) (g : StepGraph World)
    → add_providers ctx c.providers new_step_graph ≡ done g
    → IsClosed g
    → ((among : String → Bool) → IsStuck g among → ⊥)
    → compile_with_context c ctx ≡ some (done g)
unfolding compile_with_context
compile_complete c ctx g given closed free =
    let graph : IsGraph g =
      subst HasGraph given
        (add_providers-HasGraph ctx c.providers new_step_graph new_step_graph-IsGraph) in
    rw (given, IsClosed-validate g graph closed) (not_stuck_sorts g graph free)
