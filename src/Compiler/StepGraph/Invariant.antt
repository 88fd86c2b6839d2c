-- ===== src/Compiler/StepGraph/Invariant.antt =====
-- What `Add` keeps of a graph of steps.
use preflight.Base.{
  Bool-cases, List, String, [], arith, count, count-append, eq_iff, false, if◌then◌else◌, inl, inr,
  refl, some, str_eq, ◌++◌, ◌+◌, ◌∷◌, ◌≡◌,
}
use preflight.GoMap.{lookup, IsMap, has, put}
use preflight.GoMap.Laws.{lookup-put, put-IsMap}
use preflight.Compiler.Step.{Step}
use preflight.Compiler.StepGraph.{StepGraph, add_step, list_at, new_step_graph, record_dependents}

abbrev pub deps_of : {World : Type 0} → StepGraph World → String → List String
deps_of g b = list_at b g.depends_on

-- The two maps of edges are the converses of one another, and only steps have dependencies.
pub record IsGraph {World : Type 0} (g : StepGraph World) : Type 0 where
  pub steps_map : IsMap g.steps
  pub deps_map : IsMap g.depends_on
  pub dual : (a b : String) → count b (list_at a g.depended_by) ≡ count a (list_at b g.depends_on)
  pub known : (b : String) → has b g.steps ≡ false → list_at b g.depends_on ≡ []
  pub own :
      (b : String) (s : Step World)
      → lookup b g.steps ≡ some s
      → (s.id ≡ b) × (s.depends_on ≡ list_at b g.depends_on)

record_dependents_lem :
    (id a b : String) (deps : List String) (m : List (String × List String))
    → count b (list_at a (record_dependents id deps m))
      ≡ count b (list_at a m) + (if str_eq id b then count a deps else 0)
unfolding record_dependents count
record_dependents_lem id a b [] m = ground arith
record_dependents_lem id a b (d ∷ ds) m =
    let m' = put d (list_at d m ++ id ∷ []) m in
    let rest = record_dependents_lem id a b ds m' in
    let here = lookup-put a d (list_at d m ++ id ∷ []) m in
    ground (arith, rest, here, count-append b (list_at d m) (id ∷ []), eq_iff d a)

module _ {World : Type 0} where
  pub new_step_graph-IsGraph : IsGraph (new_step_graph {World = World})
  unfolding new_step_graph lookup count
  new_step_graph-IsGraph = record {
    steps_map = tt;
    deps_map = tt;
    dual = λ a b. refl;
    known = λ b h. refl;
    own = λ b s e. cc;
  }

  -- Adding a step, also where it is refused, keeps the invariant: the two maps of edges are
  -- converses of one another, only steps have dependencies, no step or list of dependencies is
  -- there twice, and each step stands under its own ID with its own dependencies.
  pub add_step-IsGraph :
      (step : Step World) (g : StepGraph World) → IsGraph g → IsGraph (add_step step g).0
  unfolding add_step
  add_step-IsGraph step g h = elim (Bool-cases (has step.id g.steps)) [
    | inl old ↦ rw old h
    | inr new ↦ rw new (record {
      steps_map = put-IsMap step.id step g.steps h.steps_map;
      deps_map = put-IsMap step.id step.depends_on g.depends_on h.deps_map;
      dual = λ a b. ground (
        arith,
        h.dual a b,
        h.known step.id new,
        record_dependents_lem step.id a b step.depends_on g.depended_by,
        lookup-put b step.id step.depends_on g.depends_on,
        eq_iff step.id b,
        no_count a,
      );
      known = λ b absent. ground (
        arith,
        h.known b,
        lookup-put b step.id step g.steps,
        lookup-put b step.id step.depends_on g.depends_on,
      );
      own = λ b s e. ground (
        arith,
        h.own b s,
        lookup-put b step.id step g.steps,
        lookup-put b step.id step.depends_on g.depends_on,
        eq_iff step.id b,
      );
    })
  ]
    where
      no_count : (a : String) → count a [] ≡ 0
      no_count a = unfold count in refl
