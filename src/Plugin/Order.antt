-- ===== src/Plugin/Order.antt =====
-- internal/domain/plugin/resolver.go, topologicalSort: the order of installation, by a depth-first
-- search. The variables that the closure `visit` shares are its state, and the model's fuel bounds
-- the depth of its calls: `none` is a search that ran out of it.
pub mod Steps
pub mod Invariant
pub mod Fuel
pub mod Cycle
pub mod Sound
pub mod Precedes
use preflight.Base.{
  String, returns, Fallible, List, Option, [], fails, if◌then◌else◌, length, none, some, str_eq,
  suc, zero, ℕ, ◌++◌, ◌+◌, ◌∷◌,
}
use preflight.GoMap.{put, lookup, keys}

pub data Mark : Type 0 where
  visiting visited : Mark

pub record Walk : Type 0 where
  pub state : List (String × Mark)
  pub result : List String
  pub path : List String

abbrev pub Graph : Type 0
Graph = List (String × List String)

abbrev pub or_no_neighbors : Option (List String) → List String
or_no_neighbors none = []
or_no_neighbors (some ns) = ns

-- `graph[node]`
abbrev pub neighbors : Graph → String → List String
neighbors g node = or_no_neighbors (lookup node g)

-- `currentPath[cycleStart:]`
unfoldable pub from_first : String → List String → List String
from_first node [] = []
from_first node (n ∷ ns) = if str_eq n node then n ∷ ns else from_first node ns

abbrev pub Search : Type 0
Search = Option (Fallible (List String) Walk)

-- An error ends the search.
abbrev pub then_search : Search → (Walk → Search) → Search
then_search none next = none
then_search (some (fails cycle)) next = some (fails cycle)
then_search (some (returns w)) next = next w

unfoldable pub visit_each : (String → Walk → Search) → List String → Walk → Search
visit_each visit [] w = some (returns w)
visit_each visit (n ∷ ns) w = then_search (visit n w) (visit_each visit ns)

-- `currentPath[:len(currentPath)-1]`
unfoldable pub without_last : List String → List String
without_last [] = []
without_last (n ∷ []) = []
without_last (n ∷ k ∷ ns) = n ∷ without_last (k ∷ ns)

abbrev pub enter : String → Walk → Walk
enter node w = record w { state = put node visiting w.state; path = w.path ++ node ∷ [] }

abbrev pub leave : String → Walk → Walk
leave node w = record {
  state = put node visited w.state;
  result = w.result ++ node ∷ [];
  path = without_last w.path;
}

unfoldable pub visit : ℕ → Graph → String → Walk → Search
unfolding visit_each
visit zero g node w = none
visit (suc fuel) g node w = elim (lookup node w.state) [
  | some m ↦ elim m [
    | visiting ↦ some (fails (from_first node w.path ++ node ∷ []))
    | visited ↦ some (returns w)
  ]
  | none ↦
      then_search (visit_each (visit fuel g) (neighbors g node) (enter node w))
        (λ after. some (returns (leave node after)))
]

-- `for node := range graph { if state[node] == 0 { ... } }`
unfoldable pub visit_all : ℕ → Graph → List String → Walk → Search
unfolding visit
visit_all fuel g [] w = some (returns w)
visit_all fuel g (n ∷ ns) w = elim (lookup n w.state) [
  | some m ↦ visit_all fuel g ns w
  | none ↦ then_search (visit fuel g n w) (visit_all fuel g ns)
]

abbrev pub new_walk : Walk
new_walk = record { state = []; result = []; path = [] }

abbrev pub order_of : Search → Option (Fallible (List String) (List String))
order_of none = none
order_of (some (fails cycle)) = some (fails cycle)
order_of (some (returns w)) = some (returns w.result)

-- Each call marks a node, so the search is never deeper than there are nodes, and one more call
-- looks at a mark or at a node with no entry.
unfoldable pub install_order : Graph → Option (Fallible (List String) (List String))
unfolding visit_all
install_order g = order_of (visit_all (length g + 1) g (keys g) new_walk)
