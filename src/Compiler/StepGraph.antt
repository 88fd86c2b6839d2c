-- ===== src/Compiler/StepGraph.antt =====
-- internal/domain/compiler/step_graph.go: the graph of steps, and what `Add` keeps.
pub mod Invariant
use preflight.Base.{List, Option, String, [], if◌then◌else◌, length, none, some, ℕ, ◌++◌, ◌==◌, ◌∷◌}
use preflight.GoMap.{lookup, has, put}
use preflight.Compiler.Step.{Step}

pub record StepGraph (World : Type 0) : Type 0 where
  pub steps : List (String × Step World)
  pub depends_on : List (String × List String)
  pub depended_by : List (String × List String)

pub data GraphError : Type 0 where
  duplicate_step cyclic_dependency : GraphError
  missing_dep : String → String → GraphError

-- `m[k]` of a map to slices: nil where the key is missing.
abbrev pub or_nil : Option (List String) → List String
or_nil none = []
or_nil (some xs) = xs

abbrev pub list_at : String → List (String × List String) → List String
list_at k m = or_nil (lookup k m)

module _ {World : Type 0} where
  unfoldable pub new_step_graph : StepGraph World
  new_step_graph = record { steps = []; depends_on = []; depended_by = [] }

  unfoldable pub graph_len : StepGraph World → ℕ
  graph_len g = length g.steps

-- `g.dependedBy[depID] = append(g.dependedBy[depID], id)` for each dependency.
unfoldable pub record_dependents :
    String → List String → List (String × List String) → List (String × List String)
record_dependents id [] m = m
record_dependents id (dep_id ∷ deps) m =
    record_dependents id deps (put dep_id (list_at dep_id m ++ id ∷ []) m)

abbrev pub or_missing : String → Option String → Option GraphError → Option GraphError
or_missing id none rest = rest
or_missing id (some dep_id) rest = some (missing_dep id dep_id)

module _ {World : Type 0} where
  unfoldable pub add_step : Step World → StepGraph World → StepGraph World × Option GraphError
  unfolding record_dependents
  add_step step g = if has step.id g.steps then (g, some duplicate_step) else (
    record {
      steps = put step.id step g.steps;
      depends_on = put step.id step.depends_on g.depends_on;
      depended_by = record_dependents step.id step.depends_on g.depended_by;
    },
    none,
  )

  unfoldable pub get_step : String → StepGraph World → Option (Step World)
  get_step id g = lookup id g.steps

  -- The first dependency of a step that is not in the graph.
  unfoldable pub first_missing : StepGraph World → List String → Option String
  first_missing g [] = none
  first_missing g (dep_id ∷ deps) = if has dep_id g.steps then first_missing g deps else some dep_id

  unfoldable pub validate_entries :
      StepGraph World → List (String × List String) → Option GraphError
  unfolding first_missing
  validate_entries g [] = none
  validate_entries g ((id, deps) ∷ m) = or_missing id (first_missing g deps) (validate_entries g m)

  unfoldable pub validate : StepGraph World → Option GraphError
  unfolding validate_entries
  validate g = validate_entries g g.depends_on

  unfoldable pub roots_of : StepGraph World → List (String × Step World) → List (Step World)
  roots_of g [] = []
  roots_of g ((id, step) ∷ m) =
      let rest = roots_of g m in if length (list_at id g.depends_on) == 0 then step ∷ rest else rest

  unfoldable pub roots : StepGraph World → List (Step World)
  unfolding roots_of
  roots g = roots_of g g.steps

  unfoldable pub leaves_of : StepGraph World → List (String × Step World) → List (Step World)
  leaves_of g [] = []
  leaves_of g ((id, step) ∷ m) =
      let rest = leaves_of g m in
      if length (list_at id g.depended_by) == 0 then step ∷ rest else rest

  unfoldable pub leaves : StepGraph World → List (Step World)
  unfolding leaves_of
  leaves g = leaves_of g g.steps
