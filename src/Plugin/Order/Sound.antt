-- ===== src/Plugin/Order/Sound.antt =====
-- What the search answers: an order, or a cycle that is in the graph.
use preflight.Base.{
  String, returns, All, Has, Has-append_left, Has-append_right, List, Option-cases, [], ap, arith,
  eq_iff, fails, inl, inr, none, refl, some, subst, suc, sym, zero, ℕ, ◌++◌, ◌∙◌, ◌∷◌, ◌≡◌,
  Fallible, Option, count, length, ◌+◌, ◌≤◌,
}
use preflight.GoMap.{lookup, put, keys}
use preflight.GoMap.Laws.{lookup-put, length-keys}
use preflight.GoMap.Unmarked.{unmarked_le}
use preflight.Plugin.Order.{
  visit, Walk, Graph, Search, then_search, enter, leave, neighbors, visit_each, visited, visiting,
  without_last, install_order, new_walk, order_of, visit_all,
}
use preflight.Plugin.Order.Steps.{
  visit-open, visit-visited, visit-visiting, visit_all-marked, visit_all-open,
}
use preflight.Plugin.Order.Cycle.{IsCycle, from_first-IsCycle}
use preflight.Plugin.Order.Invariant.{
  Holds, IsChain, IsChain-snoc, enter-Holds, leave-Holds, without_last-snoc, Follows,
}
use preflight.Plugin.Order.Fuel.{visit_all-IsDone, IsDone}

-- What a step of the search keeps of the order and of the marks.
abbrev Keeps : Walk → Walk → Type 0
Keeps w v =
    ((n : String) → Has n w.result → Has n v.result)
    × ((n : String) → lookup n w.state ≡ some visiting → lookup n v.state ≡ some visiting)

-- A search for the nodes `ns` that began in `w`.
abbrev Found : Graph → Walk → List String → Search → Type 0
Found g w ns none = Unit
Found g w ns (some (fails cycle)) = IsCycle g cycle
Found g w ns (some (returns v)) =
    Holds g v × (v.path ≡ w.path) × Keeps w v × All (λ n. Has n v.result) ns

then_search-Found :
    (g : Graph) (w : Walk) (n : String) (ns : List String) (s : Search) (next : Walk → Search)
    → Found g w (n ∷ []) s
    → ((v : Walk) → Holds g v → v.path ≡ w.path → Found g v ns (next v))
    → Found g w (n ∷ ns) (then_search s next)
then_search-Found g w n ns none next h k = tt
then_search-Found g w n ns (some (fails cycle)) next h k = h
then_search-Found g w n ns (some (returns v)) next (holds, path, (kept, marks), there) k =
    go (next v) (k v holds path)
  where
    go : (s : Search) → Found g v ns s → Found g w (n ∷ ns) s
    go none f = tt
    go (some (fails cycle)) f = f
    go (some (returns u)) (holds_u, path_u, (kept_u, marks_u), rest) = (
      holds_u,
      path_u ∙ path,
      (λ m h. kept_u m (kept m h), λ m e. marks_u m (marks m e)),
      (kept_u n there.0, rest),
    )

-- A node that is in the order already.
skip-Found :
    (g : Graph) (w : Walk) (n : String) (ns : List String) (s : Search)
    → Has n w.result
    → Found g w ns s
    → Found g w (n ∷ ns) s
skip-Found g w n ns none there f = tt
skip-Found g w n ns (some (fails cycle)) there f = f
skip-Found g w n ns (some (returns v)) there (holds, path, (kept, marks), rest) =
    (holds, path, (kept, marks), (kept n there, rest))

module _ (g : Graph) where
  abbrev Visits : (String → Walk → Search) → Type 0
  Visits f =
      (n : String) (w : Walk)
      → Holds g w
      → IsChain g (w.path ++ n ∷ [])
      → Found g w (n ∷ []) (f n w)

  visit_each-Found :
      (f : String → Walk → Search) (ns : List String) (w : Walk)
      → Visits f
      → Holds g w
      → All (λ d. IsChain g (w.path ++ d ∷ [])) ns
      → Found g w ns (visit_each f ns w)
  unfolding visit_each
  visit_each-Found f [] w visits holds chains = (holds, refl, (λ n h. h, λ n e. e), tt)
  visit_each-Found f (n ∷ ns) w visits holds chains =
      then_search-Found g w n ns (f n w) (visit_each f ns) (visits n w holds chains.0)
        (λ v holds_v path.
          visit_each-Found f ns v visits holds_v (
            subst (λ (p : List String). All (λ d. IsChain g (p ++ d ∷ [])) ns) (sym path) chains.1))

  chains_from :
      (n : String) (path : List String) (ns : List String)
      → IsChain g (path ++ n ∷ [])
      → ((d : String) → Has d ns → Has d (neighbors g n))
      → All (λ d. IsChain g ((path ++ n ∷ []) ++ d ∷ [])) ns
  chains_from n path [] chain h = tt
  chains_from n path (d ∷ ns) chain h = (
    IsChain-snoc g n d path chain (h d (inl refl)),
    chains_from n path ns chain (λ e there. h e (inr there)),
  )

  left :
      (n : String) (w : Walk) (s : Search)
      → lookup n w.state ≡ none
      → Found g (enter n w) (neighbors g n) s
      → Found g w (n ∷ []) (then_search s (λ after. some (returns (leave n after))))
  left n w none fresh f = tt
  left n w (some (fails cycle)) fresh f = f
  left n w (some (returns v)) fresh (holds, path, (kept, marks), below) = (
    leave-Holds g n v w.path path
        (marks n (ground (arith, lookup-put n n visiting w.state, eq_iff n n))) below holds,
    ap without_last path ∙ without_last-snoc n w.path,
    (
      λ m h. Has-append_left m v.result (n ∷ []) (kept m h),
      λ m e. still m e (marks m (entered m e)),
    ),
    (Has-append_right n v.result (n ∷ []) (inl refl), tt),
  )
    where
      entered :
          (m : String)
          → lookup m w.state ≡ some visiting
          → lookup m (put n visiting w.state) ≡ some visiting
      entered m e = ground (arith, e, lookup-put m n visiting w.state)

      still :
          (m : String)
          → lookup m w.state ≡ some visiting
          → lookup m v.state ≡ some visiting
          → lookup m (put n visited v.state) ≡ some visiting
      still m e k = ground (arith, e, k, fresh, lookup-put m n visited v.state, eq_iff n m)

  visit-Found : (fuel : ℕ) → Visits (visit fuel g)
  unfolding visit
  visit-Found zero n w holds chain = tt
  visit-Found (suc fuel) n w holds chain = elim (Option-cases (lookup n w.state)) [
    | inl fresh ↦ subst (Found g w (n ∷ [])) (sym (visit-open fuel g n w fresh)) (
        left n w (visit_each (visit fuel g) (neighbors g n) (enter n w)) fresh (
          visit_each-Found (visit fuel g) (neighbors g n) (enter n w) (visit-Found fuel)
            (enter-Holds g n w fresh holds)
            (chains_from n w.path (neighbors g n) chain (λ d h. h))))
    | inr (visiting, e) ↦
        subst (Found g w (n ∷ [])) (sym (visit-visiting fuel g n w e))
          (from_first-IsCycle g n w.path (holds.on_path n e) chain)
    | inr (visited, e) ↦
        subst (Found g w (n ∷ [])) (sym (visit-visited fuel g n w e))
          (holds, refl, (λ m h. h, λ m k. k), (holds.listed n e, tt))
  ]

  visit_all-Found :
      (fuel : ℕ) (ns : List String) (w : Walk)
      → Holds g w
      → w.path ≡ []
      → Found g w ns (visit_all fuel g ns w)
  unfolding visit_all
  visit_all-Found fuel [] w holds top = (holds, refl, (λ n h. h, λ n e. e), tt)
  visit_all-Found fuel (n ∷ ns) w holds top = elim (Option-cases (lookup n w.state)) [
    | inl fresh ↦ subst (Found g w (n ∷ ns)) (sym (visit_all-open fuel g n ns w fresh)) (
        then_search-Found g w n ns (visit fuel g n w) (visit_all fuel g ns)
          (visit-Found fuel n w holds (subst (λ p. IsChain g (p ++ n ∷ [])) (sym top) tt))
          (λ v holds_v path. visit_all-Found fuel ns v holds_v (path ∙ top)))
    | inr (visiting, e) ↦ absurd (subst (Has n) top (holds.on_path n e))
    | inr (visited, e) ↦
        subst (Found g w (n ∷ ns)) (sym (visit_all-marked fuel g n ns w visited e)) (
          skip-Found g w n ns (visit_all fuel g ns w) (holds.listed n e)
            (visit_all-Found fuel ns w holds top))
  ]

-- Each node of the graph is in the order; each element is there once, behind its neighbors.
abbrev pub IsOrder : Graph → List String → Type 0
IsOrder g order =
    All (λ n. Has n order) (keys g) × ((n : String) → count n order ≤ 1) × Follows g [] order

abbrev pub Judged : Graph → Option (Fallible (List String) (List String)) → Type 0
Judged g none = ⊥
Judged g (some (fails cycle)) = IsCycle g cycle
Judged g (some (returns order)) = IsOrder g order

new_walk-Holds : (g : Graph) → Holds g new_walk
unfolding lookup count
new_walk-Holds g = record {
  listed = λ n e. cc;
  marked = λ n h. absurd h;
  once = λ n. omega arith;
  ordered = tt;
  on_path = λ n e. cc;
}

order_of-Judged :
    (g : Graph) (w : Walk) (s : Search) → Found g w (keys g) s → IsDone w s → Judged g (order_of s)
order_of-Judged g w none f d = d
order_of-Judged g w (some (fails cycle)) f d = f
order_of-Judged g w (some (returns v)) (holds, _, _, there) d = (there, holds.once, holds.ordered)

-- The search for an order of installation always ends: with an order of all nodes in which each is
-- there once and every neighbor of an element stands in front of it, or with a cycle of the graph.
pub install_order_lem : (g : Graph) → Judged g (install_order g)
unfolding install_order
install_order_lem g =
    order_of-Judged g new_walk (visit_all (length g + 1) g (keys g) new_walk)
      (visit_all-Found g (length g + 1) (keys g) new_walk (new_walk-Holds g) refl)
      (visit_all-IsDone g (length g + 1) (keys g) new_walk
        (omega (arith, unmarked_le (keys g) new_walk.state, length-keys g)))
