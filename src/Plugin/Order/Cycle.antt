-- ===== src/Plugin/Order/Cycle.antt =====
-- The cycle that the search reports.
use preflight.Base.{
  String, Bool-cases, Has, List, [], ap, arith, eq_iff, false, inl, inr, str_eq, ◌++◌, ◌∷◌, ◌≡◌,
  ◌⊎◌,
}
use preflight.Plugin.Order.{Graph, from_first}
use preflight.Plugin.Order.Invariant.{IsChain}

-- A path in the graph that ends where it began.
abbrev pub IsCycle : Graph → List String → Type 0
IsCycle g c = IsChain g c × (n : String) × (xs : List String) × (c ≡ n ∷ (xs ++ n ∷ []))

IsChain-tail : (g : Graph) (x : String) (xs : List String) → IsChain g (x ∷ xs) → IsChain g xs
IsChain-tail g x [] h = tt
IsChain-tail g x (y ∷ xs) h = h.1

pub from_first-IsCycle :
    (g : Graph) (n : String) (path : List String)
    → Has n path
    → IsChain g (path ++ n ∷ [])
    → IsCycle g (from_first n path ++ n ∷ [])
unfolding from_first
from_first-IsCycle g n [] h chain = absurd h
from_first-IsCycle g n (x ∷ path) h chain = elim (Bool-cases (str_eq x n)) [
  | inl same ↦ rw same (chain, n, path, ap (λ k. k ∷ (path ++ n ∷ [])) ((eq_iff x n).0 same))
  | inr ne ↦
      rw ne (from_first-IsCycle g n path (later h ne) (IsChain-tail g x (path ++ n ∷ []) chain))
]
  where
    later : ((x ≡ n) ⊎ Has n path) → str_eq x n ≡ false → Has n path
    later (inl e) ne = ground (arith, e, ne, eq_iff x n)
    later (inr there) ne = there
