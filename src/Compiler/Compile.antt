-- ===== src/Compiler/Compile.antt =====
-- internal/domain/compiler/compiler.go: the compilation pipeline. The providers are interface
-- values; `Context` is what they read of the configuration.
pub mod Sound
pub mod Complete
use preflight.Base.{Bool, List, Option, String, [], none, some, ◌++◌, ◌∷◌}
use preflight.Compiler.Step.{Step}
use preflight.Compiler.Sort.{Result, ok, err, topological_sort}
use preflight.Compiler.StepGraph.{StepGraph, GraphError, add_step, new_step_graph, validate}

pub data CompileError : Type 0 where
  provider_failed : String → String → CompileError
  rejected_step : String → String → GraphError → CompileError
  invalid_graph : GraphError → CompileError

-- What a call returns: a value, or an error. The error of a provider is its message.
pub data Outcome {ℓ} (A : Type ℓ) : Type ℓ where
  done : A → Outcome A
  fails : CompileError → Outcome A

pub record Provider (Context World : Type 0) : Type 0 where
  pub name : String
  pub compile_steps : Context → List (Step World) × Option String

pub record Compiler (Context World : Type 0) : Type 0 where
  pub providers : List (Provider Context World)

module _ {Context World : Type 0} where
  unfoldable pub new_compiler : Compiler Context World
  new_compiler = record { providers = [] }

  unfoldable pub register_provider :
      Provider Context World → Compiler Context World → Compiler Context World
  register_provider p c = record { providers = c.providers ++ p ∷ [] }

module _ {World : Type 0} where
  abbrev pub after_add :
      String
      → String
      → StepGraph World × Option GraphError
      → (StepGraph World → Outcome (StepGraph World))
      → Outcome (StepGraph World)
  after_add provider id (g, some e) rest = fails (rejected_step provider id e)
  after_add provider id (g, none) rest = rest g

  -- The inner loop: the steps of one provider.
  unfoldable pub add_steps :
      String → List (Step World) → StepGraph World → Outcome (StepGraph World)
  add_steps provider [] g = done g
  add_steps provider (step ∷ steps) g =
      after_add provider step.id (add_step step g) (add_steps provider steps)

  abbrev pub and_then :
      Outcome (StepGraph World)
      → (StepGraph World → Outcome (StepGraph World))
      → Outcome (StepGraph World)
  and_then (done g) f = f g
  and_then (fails e) f = fails e

  abbrev pub after_sort :
      StepGraph World
      → Option (Result (List (Option (Step World))))
      → Option (Outcome (StepGraph World))
  after_sort g none = none
  after_sort g (some (ok sorted)) = some (done g)
  after_sort g (some (err e)) = some (fails (invalid_graph e))

module _ {Context World : Type 0} (ctx : Context) where
  abbrev pub after_compile :
      String → List (Step World) × Option String → StepGraph World → Outcome (StepGraph World)
  after_compile provider (steps, some message) g = fails (provider_failed provider message)
  after_compile provider (steps, none) g = add_steps provider steps g

  -- The loop over the providers.
  unfoldable pub add_providers :
      List (Provider Context World) → StepGraph World → Outcome (StepGraph World)
  add_providers [] g = done g
  add_providers (p ∷ ps) g =
      and_then (after_compile p.name (p.compile_steps ctx) g) (add_providers ps)

abbrev pub after_validate :
    {World : Type 0} → StepGraph World → Option GraphError → Option (Outcome (StepGraph World))
after_validate g none = after_sort g (topological_sort g)
after_validate g (some e) = some (fails (invalid_graph e))

abbrev pub check_graph :
    {World : Type 0} → Outcome (StepGraph World) → Option (Outcome (StepGraph World))
check_graph (fails e) = some (fails e)
check_graph (done g) = after_validate g (validate g)

-- `none` means that the sort ran out of fuel.
unfoldable pub compile_with_context :
    {Context World : Type 0} → Compiler Context World → Context → Option (Outcome (StepGraph World))
unfolding add_providers add_steps
compile_with_context c ctx = check_graph (add_providers ctx c.providers new_step_graph)
