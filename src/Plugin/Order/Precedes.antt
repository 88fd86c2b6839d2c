-- ===== src/Plugin/Order/Precedes.antt =====
-- What stands in front of what in an order of installation.
use mathlib.Core.List.{append-nil, append_assoc}
use preflight.Base.{
  String, All, All-Has, Bool-cases, Has, Has-append_left, List, [], ap, inl, inr, subst, sym, ◌++◌,
  ◌∷◌, ◌≡◌,
}
use preflight.GoMap.{has, keys}
use preflight.Plugin.Order.{Graph, neighbors}
use preflight.GoMap.Laws.{Has-keys}
use preflight.Plugin.Order.Fuel.{neighbors-none}
use preflight.Plugin.Order.Invariant.{Follows}
use preflight.Plugin.Order.Sound.{IsOrder}

-- One name stands in front of another.
abbrev pub Precedes : String → String → List String → Type 0
Precedes d k order = (xs : List String) × (ys : List String) × (order ≡ xs ++ k ∷ ys) × Has d xs

pub Follows-Has :
    (g : Graph) (before order : List String) (k : String)
    → Follows g before order
    → Has k order
    → (xs : List String) × (ys : List String) × (order ≡ xs ++ k ∷ ys)
      × All (λ d. Has d (before ++ xs)) (neighbors g k)
Follows-Has g before [] k h there = absurd there
Follows-Has g before (n ∷ ns) k h (inl e) = (
  [],
  ns,
  ap (λ x. x ∷ ns) e,
  subst (λ x. All (λ d. Has d (before ++ [])) (neighbors g x)) e (rw append-nil h.0),
)
Follows-Has g before (n ∷ ns) k h (inr there) =
    let (xs, ys, split, all) = Follows-Has g (before ++ n ∷ []) ns k h.1 there in
    (n ∷ xs, ys, ap (λ l. n ∷ l) split, rw append_assoc at all)

pub precede :
    (order xs ys : List String) (k : String) (ns ms : List String)
    → order ≡ xs ++ k ∷ ys
    → All (λ d. Has d xs) ms
    → All (λ n. Has n ms) ns
    → All (λ n. Precedes n k order) ns
precede order xs ys k [] ms split all sub = tt
precede order xs ys k (n ∷ ns) ms split all sub = (
  (xs, ys, split, All-Has (λ d. Has d xs) n ms all sub.0),
  precede order xs ys k ns ms split all sub.1,
)

neighbor_ordered :
    (g : Graph) (p n : String) (order : List String)
    → IsOrder g order
    → Has n (neighbors g p)
    → Has n order
neighbor_ordered g p n order (all, once, follows) h = elim (Bool-cases (has p g)) [
  | inl there ↦
      let (xs, ys, split, below) =
        Follows-Has g [] order p follows
          (All-Has (λ k. Has k order) p (keys g) all (Has-keys p g there)) in
      subst (Has n) (sym split)
        (Has-append_left n xs (p ∷ ys) (All-Has (λ d. Has d xs) n (neighbors g p) below h))
  | inr absent ↦ absurd (subst (Has n) (neighbors-none g p absent) h)
]

pub required :
    (g : Graph) (p : String) (order : List String)
    → IsOrder g order
    → (ns : List String) → All (λ n. Has n (neighbors g p)) ns
    → All (λ n. Has n order) ns
required g p order judged [] h = tt
required g p order judged (n ∷ ns) h =
    (neighbor_ordered g p n order judged h.0, required g p order judged ns h.1)
