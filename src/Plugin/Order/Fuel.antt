-- ===== src/Plugin/Order/Fuel.antt =====
-- The search ends: its depth is at most the number of nodes that have no mark yet.
use preflight.GoMap.Laws.{Has-keys}
use preflight.Base.{
  String, returns, Bool-cases, List, Option-cases, [], ap, arith, fails, false, inl, inr, none,
  some, suc, zero, ℕ, ◌<◌, ◌∷◌, ◌≡◌, refl, subst, sym,
}
use preflight.GoMap.{lookup, has, keys, is_some}
use preflight.GoMap.Laws.{Has-keys}
use preflight.Plugin.Order.Steps.{
  visit-open, visit-visited, visit-visiting, visit_all-marked, visit_all-open,
}
use preflight.GoMap.Unmarked.{unmarked, Extends, unmarked-Extends, unmarked-put, Extends-put}
use preflight.Plugin.Order.{
  visit, Walk, Graph, Search, then_search, enter, neighbors, visit_each, visited, visiting, leave,
  visit_all,
}

-- A search has not run out of fuel, and where it goes on it has kept the marks.
abbrev pub IsDone : Walk → Search → Type 0
IsDone w none = ⊥
IsDone w (some (fails cycle)) = Unit
IsDone w (some (returns after)) = Extends w.state after.state

IsDone-Extends : (w v : Walk) (s : Search) → Extends w.state v.state → IsDone v s → IsDone w s
IsDone-Extends w v none h d = d
IsDone-Extends w v (some (fails cycle)) h d = tt
IsDone-Extends w v (some (returns after)) h d = λ k there. d k (h k there)

then_search-IsDone :
    (w : Walk) (s : Search) (next : Walk → Search)
    → IsDone w s
    → ((v : Walk) → Extends w.state v.state → IsDone v (next v))
    → IsDone w (then_search s next)
then_search-IsDone w none next d h = d
then_search-IsDone w (some (fails cycle)) next d h = tt
then_search-IsDone w (some (returns v)) next d h = IsDone-Extends w v (next v) d (h v d)

module _ (g : Graph) where
  -- The fuel is more than the nodes without a mark.
  abbrev HasRoom : ℕ → Walk → Type 0
  HasRoom fuel w = unmarked (keys g) w.state < fuel

  abbrev Ends : ℕ → (String → Walk → Search) → Type 0
  Ends fuel f = (n : String) (w : Walk) → HasRoom fuel w → IsDone w (f n w)

  room-Extends : (fuel : ℕ) (w v : Walk) → HasRoom fuel w → Extends w.state v.state → HasRoom fuel v
  room-Extends fuel w v room h = omega (arith, unmarked-Extends (keys g) w.state v.state h)

  visit_each-IsDone :
      (fuel : ℕ) (f : String → Walk → Search) (ns : List String) (w : Walk)
      → Ends fuel f
      → HasRoom fuel w
      → IsDone w (visit_each f ns w)
  unfolding visit_each
  visit_each-IsDone fuel f [] w ends room = λ k h. h
  visit_each-IsDone fuel f (n ∷ ns) w ends room =
      then_search-IsDone w (f n w) (visit_each f ns) (ends n w room)
        (λ v h. visit_each-IsDone fuel f ns v ends (room-Extends fuel w v room h))

  -- A node with no entry has no neighbors.
  pub neighbors-none : (node : String) → has node g ≡ false → neighbors g node ≡ []
  neighbors-none node h = elim (Option-cases (lookup node g)) [
    | inl e ↦ rw e refl
    | inr (ns, e) ↦ ground (arith, e, h)
  ]

  entered :
      (fuel : ℕ) (node : String) (w : Walk)
      → lookup node w.state ≡ none
      → Ends fuel (visit fuel g)
      → HasRoom (suc fuel) w
      → IsDone (enter node w) (visit_each (visit fuel g) (neighbors g node) (enter node w))
  unfolding visit_each
  entered fuel node w fresh ends room = elim (Bool-cases (has node g)) [
    | inl there ↦ visit_each-IsDone fuel (visit fuel g) (neighbors g node) (enter node w) ends (
        omega (
          arith,
          room,
          unmarked-put node visiting (keys g) w.state (Has-keys node g there) (ap is_some fresh),
        ))
    | inr absent ↦
        subst (λ ns. IsDone (enter node w) (visit_each (visit fuel g) ns (enter node w)))
          (sym (neighbors-none node absent)) (λ k h. h)
  ]

  leave-IsDone : (node : String) (w : Walk) → IsDone w (some (returns (leave node w)))
  leave-IsDone node w = Extends-put node visited w.state

  pub visit-IsDone : (fuel : ℕ) → Ends fuel (visit fuel g)
  visit-IsDone zero n w room = absurd (omega (arith, room))
  visit-IsDone (suc fuel) n w room = elim (Option-cases (lookup n w.state)) [
    | inl fresh ↦ subst (IsDone w) (sym (visit-open fuel g n w fresh)) (
        IsDone-Extends w (enter n w) _ (Extends-put n visiting w.state) (
          then_search-IsDone (enter n w) (visit_each (visit fuel g) (neighbors g n) (enter n w)) _
            (entered fuel n w fresh (visit-IsDone fuel) room) (λ v h. leave-IsDone n v)))
    | inr (visiting, e) ↦ subst (IsDone w) (sym (visit-visiting fuel g n w e)) tt
    | inr (visited, e) ↦ subst (IsDone w) (sym (visit-visited fuel g n w e)) (λ k h. h)
  ]

  pub visit_all-IsDone :
      (fuel : ℕ) (ns : List String) (w : Walk) → HasRoom fuel w → IsDone w (visit_all fuel g ns w)
  unfolding visit_all
  visit_all-IsDone fuel [] w room = λ k h. h
  visit_all-IsDone fuel (n ∷ ns) w room = elim (Option-cases (lookup n w.state)) [
    | inl fresh ↦ subst (IsDone w) (sym (visit_all-open fuel g n ns w fresh)) (
        then_search-IsDone w (visit fuel g n w) (visit_all fuel g ns) (visit-IsDone fuel n w room)
          (λ v h. visit_all-IsDone fuel ns v (room-Extends fuel w v room h)))
    | inr (m, e) ↦
        subst (IsDone w) (sym (visit_all-marked fuel g n ns w m e))
          (visit_all-IsDone fuel ns w room)
  ]
