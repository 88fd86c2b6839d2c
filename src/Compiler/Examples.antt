-- ===== src/Compiler/Examples.antt =====
-- Three steps, a cycle and a provider: the theorems of internal/domain/compiler at concrete graphs.
use preflight.GoMap.{keys}
use preflight.GoMap.{put}
use preflight.GoMap.{lookup}
use preflight.Base.{
  String, Bool, List, [], none, refl, some, ℕ, ◌+◌, ◌↔◌, ◌∷◌, ◌≡◌, ◌⊎◌, binary_search, sort_strings,
}
use preflight.Compiler.Diff.{zero_diff}
use preflight.Compiler.Step.{Step, needs_apply}
use preflight.Compiler.StepGraph.{
  StepGraph, add_step, new_step_graph, cyclic_dependency, record_dependents, first_missing,
  validate, validate_entries,
}
use preflight.Compiler.StepGraph.Invariant.{IsGraph, add_step-IsGraph, new_step_graph-IsGraph}
use preflight.Compiler.Sort.{
  topological_sort, count_degrees, count_deps, err, in_degrees, insert_sorted, ok, ready_ids,
  release, sort_loop, zero_degrees,
}
use preflight.Compiler.Sort.Loop.{refs}
use preflight.Compiler.Sort.Correct.{
  IsStuck, IsTopological, topological_sort_lem, topological_sort-cyclic_iff,
}
use preflight.Compiler.Compile.{
  Compiler, Provider, compile_with_context, add_providers, add_steps, done,
}
use preflight.Compiler.Compile.Complete.{compile_complete}
use preflight.Compiler.Compile.Sound.{Compiled, compile_lem, IsClosed, validate-IsClosed}

-- A step on a machine that is the number of steps that have been applied to it.
abbrev pub demo_step : String → List String → Step ℕ
demo_step id depends_on = record {
  id = id;
  depends_on = depends_on;
  check = λ w. ((needs_apply, none), w);
  plan = λ w. ((zero_diff, none), w);
  apply = λ w. (none, w + 1);
  rollbackable = none;
}

abbrev pub tap : Step ℕ
tap = demo_step "brew:tap" []

abbrev pub formula : Step ℕ
formula = demo_step "brew:formula:gh" ("brew:tap" ∷ [])

abbrev pub config : Step ℕ
config = demo_step "git:config" ("brew:formula:gh" ∷ "brew:tap" ∷ [])

-- The steps come in before their dependencies.
abbrev pub demo_graph : StepGraph ℕ
demo_graph = (add_step tap (add_step formula (add_step config new_step_graph).0).0).0

pub demo_graph-IsGraph : IsGraph demo_graph
demo_graph-IsGraph = add_step-IsGraph tap (add_step formula (add_step config new_step_graph).0).0 (
    add_step-IsGraph formula (add_step config new_step_graph).0
      (add_step-IsGraph config new_step_graph new_step_graph-IsGraph))

abbrev cyclic_graph : StepGraph ℕ
cyclic_graph =
    (add_step (demo_step "b" ("a" ∷ [])) (add_step (demo_step "a" ("b" ∷ [])) new_step_graph).0).0

cyclic_graph-IsGraph : IsGraph cyclic_graph
cyclic_graph-IsGraph =
    add_step-IsGraph (demo_step "b" ("a" ∷ []))
      (add_step (demo_step "a" ("b" ∷ [])) new_step_graph).0
      (add_step-IsGraph (demo_step "a" ("b" ∷ [])) new_step_graph new_step_graph-IsGraph)

topological_sort_lem_example :
    ((order : List String) × (topological_sort demo_graph ≡ some (ok (refs demo_graph order)))
      × IsTopological demo_graph order)
    ⊎ ((among : String → Bool) × (topological_sort demo_graph ≡ some (err cyclic_dependency))
        × IsStuck demo_graph among)
topological_sort_lem_example = topological_sort_lem demo_graph demo_graph-IsGraph

topological_sort-cyclic_iff_example :
    (topological_sort cyclic_graph ≡ some (err cyclic_dependency))
    ↔ ((among : String → Bool) × IsStuck cyclic_graph among)
topological_sort-cyclic_iff_example = topological_sort-cyclic_iff cyclic_graph cyclic_graph-IsGraph

add_step-IsGraph_example : IsGraph (add_step tap (add_step formula new_step_graph).0).0
add_step-IsGraph_example =
    add_step-IsGraph tap (add_step formula new_step_graph).0
      (add_step-IsGraph formula new_step_graph new_step_graph-IsGraph)

-- The configuration is not read.
abbrev brew : Provider Unit ℕ
brew = record { name = "brew"; compile_steps = λ _. (formula ∷ tap ∷ [], none) }

abbrev demo_compiler : Compiler Unit ℕ
demo_compiler = record { providers = brew ∷ [] }

abbrev brew_graph : StepGraph ℕ
brew_graph = (add_step tap (add_step formula new_step_graph).0).0

brew_graph-IsGraph : IsGraph brew_graph
brew_graph-IsGraph =
    add_step-IsGraph tap (add_step formula new_step_graph).0
      (add_step-IsGraph formula new_step_graph new_step_graph-IsGraph)

brew_graph-IsClosed : IsClosed brew_graph
unfolding add_step new_step_graph record_dependents lookup put
brew_graph-IsClosed = validate-IsClosed brew_graph valid
  where
    valid : validate brew_graph ≡ none
    valid = unfold validate validate_entries first_missing in refl

brew_order : topological_sort brew_graph ≡ some (ok (some tap ∷ some formula ∷ []))
unfolding topological_sort add_step new_step_graph sort_loop release insert_sorted in_degrees
    count_degrees count_deps zero_degrees ready_ids record_dependents lookup put keys sort_strings
    binary_search
brew_order = refl

compile_lem_example : Compiled (compile_with_context demo_compiler tt)
compile_lem_example = compile_lem demo_compiler tt

-- The order of the demo graph, and the report of the cycle.
demo_order : topological_sort demo_graph ≡ some (ok (some tap ∷ some formula ∷ some config ∷ []))
unfolding topological_sort add_step new_step_graph sort_loop release insert_sorted in_degrees
    count_degrees count_deps zero_degrees ready_ids record_dependents lookup put keys sort_strings
    binary_search
demo_order = refl

cycle_reported : topological_sort cyclic_graph ≡ some (err cyclic_dependency)
unfolding topological_sort add_step new_step_graph sort_loop release insert_sorted in_degrees
    count_degrees count_deps zero_degrees ready_ids record_dependents lookup put keys sort_strings
cycle_reported = refl

compile_complete_example : compile_with_context demo_compiler tt ≡ some (done brew_graph)
unfolding add_providers add_steps add_step new_step_graph record_dependents lookup put
compile_complete_example =
    compile_complete demo_compiler tt brew_graph refl brew_graph-IsClosed (λ among stuck.
      cc ((topological_sort-cyclic_iff brew_graph brew_graph-IsGraph).1 (among, stuck), brew_order))
