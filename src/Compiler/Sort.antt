-- ===== src/Compiler/Sort.antt =====
-- internal/domain/compiler/step_graph.go: `TopologicalSort`, Kahn's algorithm on a queue that is
-- kept sorted behind its front.
pub mod Degrees
pub mod Queue
pub mod Release
pub mod Loop
pub mod Correct
use preflight.Base.{
  Bool, ℤ, List, Option, String, [], binary_search, decrement, drop, false, get_elem?, get_or,
  if◌then◌else◌, increment, length, ltb, none, pos, some, sort_strings, str_leb, suc, take, true,
  zero, ℕ, ◌++◌, ◌+◌, ◌-◌, ◌==◌, ◌∷◌,
}
use preflight.GoMap.{lookup, has, keys, put}
use preflight.Compiler.Step.{Step}
use preflight.Compiler.StepGraph.{StepGraph, GraphError, cyclic_dependency, list_at}

-- `queue[start+i] >= id`
abbrev pub at_or_after : List String → ℕ → String → ℕ → Bool
at_or_after queue start id i = str_leb id (get_or queue (start + i) "")

unfoldable pub insert_sorted : List String → ℕ → String → List String
insert_sorted queue start id =
    if ltb (length queue) start
    then queue ++ id ∷ []
    else (let insert_at =
          start + binary_search (length queue - start) (at_or_after queue start id) in
        take insert_at queue ++ id ∷ drop insert_at queue)

abbrev pub Degrees : Type 0
Degrees = List (String × ℤ)

abbrev pub or_zero : Option ℤ → ℤ
or_zero none = pos 0
or_zero (some n) = n

abbrev pub degree : String → Degrees → ℤ
degree id m = or_zero (lookup id m)

abbrev pub is_zero : ℤ → Bool
is_zero (pos zero) = true
is_zero _ = false

unfoldable pub zero_degrees : List String → Degrees → Degrees
zero_degrees [] m = m
zero_degrees (id ∷ ids) m = zero_degrees ids (put id (pos 0) m)

module _ {World : Type 0} (g : StepGraph World) where
  -- `inDegree[id]++` for each dependency that is in the graph.
  unfoldable pub count_deps : String → List String → Degrees → Degrees
  count_deps id [] m = m
  count_deps id (dep_id ∷ deps) m =
      count_deps id deps (if has dep_id g.steps then put id (increment (degree id m)) m else m)

  unfoldable pub count_degrees : List String → Degrees → Degrees
  unfolding count_deps
  count_degrees [] m = m
  count_degrees (id ∷ ids) m = count_degrees ids (count_deps id (list_at id g.depends_on) m)

  unfoldable pub in_degrees : Degrees
  unfolding count_degrees zero_degrees
  in_degrees = count_degrees (keys g.steps) (zero_degrees (keys g.steps) [])

  unfoldable pub ready_ids : Degrees → List String
  ready_ids [] = []
  ready_ids ((id, d) ∷ m) = let rest = ready_ids m in if is_zero d then id ∷ rest else rest

  -- The loop over the steps that depend on the one at the front.
  unfoldable pub release : ℕ → List String → List String × Degrees → List String × Degrees
  unfolding insert_sorted
  release front [] (queue, m) = (queue, m)
  release front (id ∷ ids) (queue, m) = release front ids (
      if has id g.steps
      then (if is_zero (decrement (degree id m))
          then (insert_sorted queue (front + 1) id, put id (decrement (degree id m)) m)
          else (queue, put id (decrement (degree id m)) m))
      else (queue, m))

  -- `for front := 0; front < len(queue); front++`, with the steps taken so far. `none` means that
  -- the fuel ran out.
  unfoldable pub sort_loop :
      ℕ
      → ℕ
      → List String × Degrees
      → List (Option (Step World))
      → Option (List (Option (Step World)))
  unfolding release
  sort_loop zero front s sorted = none
  sort_loop (suc fuel) front (queue, m) sorted = elim (get_elem? queue front) [
    | none ↦ some sorted
    | some id ↦
        sort_loop fuel (front + 1) (release front (list_at id g.depended_by) (queue, m))
          (sorted ++ lookup id g.steps ∷ [])
  ]

pub data Result {ℓ} (A : Type ℓ) : Type ℓ where
  ok : A → Result A
  err : GraphError → Result A

module _ {World : Type 0} where
  -- The test on the number of steps that were sorted. A missing step is Go's nil.
  abbrev pub checked_len :
      StepGraph World → List (Option (Step World)) → Result (List (Option (Step World)))
  checked_len g sorted =
      if length sorted == length g.steps then ok sorted else err cyclic_dependency

  abbrev pub finish :
      StepGraph World
      → Option (List (Option (Step World)))
      → Option (Result (List (Option (Step World))))
  finish g none = none
  finish g (some sorted) = some (checked_len g sorted)

  -- The fuel is one round for each step, and one for the end of the queue.
  unfoldable pub topological_sort : StepGraph World → Option (Result (List (Option (Step World))))
  topological_sort g = finish g (
      sort_loop g (suc (length g.steps)) 0 (sort_strings (ready_ids g (in_degrees g)), in_degrees g)
        [])
