-- ===== src/Plugin/Order/Steps.antt =====
-- One call of the search, by the mark of its node.
use preflight.Base.{String, returns, List, [], fails, none, refl, some, suc, ℕ, ◌++◌, ◌∷◌, ◌≡◌}
use preflight.GoMap.{lookup}
use preflight.Plugin.Order.{
  visit, Walk, Graph, Mark, then_search, enter, from_first, leave, neighbors, visit_all, visit_each,
  visited, visiting,
}

module _ (fuel : ℕ) (g : Graph) (n : String) (w : Walk) where
  pub visit-visited : lookup n w.state ≡ some visited → visit (suc fuel) g n w ≡ some (returns w)
  unfolding visit
  visit-visited e = rw (visit, e) refl

  pub visit-visiting :
      lookup n w.state ≡ some visiting
      → visit (suc fuel) g n w ≡ some (fails (from_first n w.path ++ n ∷ []))
  unfolding visit
  visit-visiting e = rw (visit, e) refl

  pub visit-open :
      lookup n w.state ≡ none
      → visit (suc fuel) g n w
        ≡ then_search
            (visit_each (visit fuel g) (neighbors g n) (enter n w))
            (λ after. some (returns (leave n after)))
  unfolding visit
  visit-open e = rw (visit, e) refl

module _ (fuel : ℕ) (g : Graph) (n : String) (ns : List String) (w : Walk) where
  pub visit_all-marked :
      (m : Mark) → lookup n w.state ≡ some m → visit_all fuel g (n ∷ ns) w ≡ visit_all fuel g ns w
  unfolding visit_all
  visit_all-marked m e = rw (visit_all, e) refl

  pub visit_all-open :
      lookup n w.state ≡ none
      → visit_all fuel g (n ∷ ns) w ≡ then_search (visit fuel g n w) (visit_all fuel g ns)
  unfolding visit_all
  visit_all-open e = rw (visit_all, e) refl
