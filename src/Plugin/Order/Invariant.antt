-- ===== src/Plugin/Order/Invariant.antt =====
-- What holds of the search at every moment, and that it is kept when a node is entered and left.
use mathlib.Core.List.{append-nil, append_assoc}
use preflight.Base.{
  String, All, Bool-cases, Has, List, [], ap, arith, count, eq_iff, if◌then◌else◌, inl, inr, none,
  refl, some, str_eq, subst, sym, ◌++◌, ◌+◌, ◌∷◌, ◌≡◌, ◌≤◌, Has-append, Has-append_left,
  Has-append_right, false, ◌∙◌,
}
use preflight.GoMap.{lookup, put}
use preflight.GoMap.Laws.{lookup-put}
use preflight.Plugin.Order.{Walk, Graph, enter, leave, neighbors, visited, visiting, without_last}

-- Every element has its neighbors among `before` and the elements in front of it.
abbrev pub Follows : Graph → List String → List String → Type 0
Follows g before [] = Unit
Follows g before (n ∷ ns) =
    All (λ d. Has d before) (neighbors g n) × Follows g (before ++ n ∷ []) ns

-- Each element is a neighbor of the one in front of it.
abbrev pub IsChain : Graph → List String → Type 0
IsChain g [] = Unit
IsChain g (x ∷ []) = Unit
IsChain g (x ∷ y ∷ ns) = Has y (neighbors g x) × IsChain g (y ∷ ns)

-- The order so far has each node once, behind its neighbors, and is what is marked as visited; what
-- is marked as being visited is on the path.
pub record Holds (g : Graph) (w : Walk) : Type 0 where
  pub listed : (n : String) → lookup n w.state ≡ some visited → Has n w.result
  pub marked : (n : String) → Has n w.result → lookup n w.state ≡ some visited
  pub once : (n : String) → count n w.result ≤ 1
  pub ordered : Follows g [] w.result
  pub on_path : (n : String) → lookup n w.state ≡ some visiting → Has n w.path

Follows-snoc :
    (g : Graph) (n : String) (xs before : List String)
    → Follows g before xs
    → All (λ d. Has d (before ++ xs)) (neighbors g n)
    → Follows g before (xs ++ n ∷ [])
Follows-snoc g n [] before h all = (rw (append-nil before) at all, tt)
Follows-snoc g n (x ∷ xs) before h all = (
  h.0,
  Follows-snoc g n xs (before ++ x ∷ []) h.1 (
      subst (λ (k : List String). All (λ d. Has d k) (neighbors g n))
        (sym (append_assoc before (x ∷ []) xs)) all),
)

pub without_last-snoc : (n : String) (xs : List String) → without_last (xs ++ n ∷ []) ≡ xs
unfolding without_last
without_last-snoc n [] = refl
without_last-snoc n (x ∷ []) = refl
without_last-snoc n (x ∷ y ∷ xs) = ap (λ k. x ∷ k) (without_last-snoc n (y ∷ xs))

pub IsChain-snoc :
    (g : Graph) (x y : String) (xs : List String)
    → IsChain g (xs ++ x ∷ [])
    → Has y (neighbors g x)
    → IsChain g ((xs ++ x ∷ []) ++ y ∷ [])
IsChain-snoc g x y [] h next = (next, tt)
IsChain-snoc g x y (z ∷ []) h next = (h.0, (next, tt))
IsChain-snoc g x y (z ∷ u ∷ xs) h next = (h.0, IsChain-snoc g x y (u ∷ xs) h.1 next)

count-snoc :
    (n m : String) (xs : List String)
    → count n (xs ++ m ∷ []) ≡ count n xs + (if str_eq m n then 1 else 0)
unfolding count
count-snoc n m [] = ground arith
count-snoc n m (x ∷ xs) = ground (arith, count-snoc n m xs)

count_absent : (n : String) (xs : List String) → ¬ Has n xs → count n xs ≡ 0
unfolding count
count_absent n [] h = refl
count_absent n (x ∷ xs) h = elim (Bool-cases (str_eq x n)) [
  | inl e ↦ absurd (h (inl ((eq_iff x n).0 e)))
  | inr ne ↦ rw (ne, count_absent n xs (λ there. h (inr there))) refl
]

module _ (g : Graph) (node : String) where
  enter_path :
      (w : Walk)
      → Holds g w
      → (n : String) → lookup n (put node visiting w.state) ≡ some visiting
      → Has n (w.path ++ node ∷ [])
  enter_path w h n e = elim (Bool-cases (str_eq node n)) [
    | inl same ↦ Has-append_right n w.path (node ∷ []) (inl ((eq_iff node n).0 same))
    | inr ne ↦
        Has-append_left n w.path (node ∷ [])
          (h.on_path n (ground (arith, e, ne, lookup-put n node visiting w.state)))
  ]

  leave_listed :
      (w : Walk)
      → Holds g w
      → (n : String) → lookup n (put node visited w.state) ≡ some visited
      → Has n (w.result ++ node ∷ [])
  leave_listed w h n e = elim (Bool-cases (str_eq node n)) [
    | inl same ↦ Has-append_right n w.result (node ∷ []) (inl ((eq_iff node n).0 same))
    | inr ne ↦
        Has-append_left n w.result (node ∷ [])
          (h.listed n (ground (arith, e, ne, lookup-put n node visited w.state)))
  ]

  leave_marked :
      (w : Walk)
      → Holds g w
      → (n : String) → Has n (w.result ++ node ∷ [])
      → lookup n (put node visited w.state) ≡ some visited
  leave_marked w h n there = elim (Has-append n w.result (node ∷ []) there) [
    | inl old ↦ ground (arith, h.marked n old, lookup-put n node visited w.state)
    | inr (inl same) ↦ ground (arith, same, eq_iff node n, lookup-put n node visited w.state)
    | inr (inr none_left) ↦ absurd none_left
  ]

  leave_once :
      (w : Walk)
      → lookup node w.state ≡ some visiting
      → Holds g w
      → (n : String) → count n (w.result ++ node ∷ []) ≤ 1
  leave_once w visits h n = elim (Bool-cases (str_eq node n)) [
    | inl same ↦
        let absent : count n w.result ≡ 0 =
          count_absent n w.result
            (λ there. ground (arith, h.marked n there, visits, (eq_iff node n).0 same)) in
        rw (count-snoc n node w.result, absent, same) (omega arith)
    | inr ne ↦ ground (arith, h.once n, count-snoc n node w.result, ne)
  ]

  leave_path :
      (w : Walk) (path : List String)
      → w.path ≡ path ++ node ∷ []
      → Holds g w
      → (n : String) → lookup n (put node visited w.state) ≡ some visiting
      → Has n (without_last w.path)
  leave_path w path e h n there =
      let ne : str_eq node n ≡ false = ground (arith, there, lookup-put n node visited w.state) in
      let before : lookup n w.state ≡ some visiting =
        ground (arith, there, ne, lookup-put n node visited w.state) in
      subst (Has n) (sym (ap without_last e ∙ without_last-snoc node path))
        (elim (Has-append n path (node ∷ []) (subst (Has n) e (h.on_path n before))) [
          | inl old ↦ old
          | inr (inl same) ↦ ground (arith, same, ne, eq_iff node n)
          | inr (inr none_left) ↦ absurd none_left
        ])

  pub enter-Holds : (w : Walk) → lookup node w.state ≡ none → Holds g w → Holds g (enter node w)
  enter-Holds w fresh h = record {
    listed =
        λ n e. h.listed n (ground (arith, e, lookup-put n node visiting w.state, eq_iff node n));
    marked = λ n there.
        ground (arith, h.marked n there, fresh, lookup-put n node visiting w.state, eq_iff node n);
    once = h.once;
    ordered = h.ordered;
    on_path = λ n e. enter_path w h n e;
  }

  pub leave-Holds :
      (w : Walk) (path : List String)
      → w.path ≡ path ++ node ∷ []
      → lookup node w.state ≡ some visiting
      → All (λ d. Has d w.result) (neighbors g node)
      → Holds g w
      → Holds g (leave node w)
  leave-Holds w path e visits below h = record {
    listed = λ n e. leave_listed w h n e;
    marked = λ n there. leave_marked w h n there;
    once = λ n. leave_once w visits h n;
    ordered = Follows-snoc g node w.result [] h.ordered below;
    on_path = λ n there. leave_path w path e h n there;
  }
