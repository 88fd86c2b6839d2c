-- ===== src/Plugin/Resolver/Settled.antt =====
-- What a run over dependencies has settled, and the loop over them.
use preflight.Base.{
  String, All, Has, List, Option, [], arith, inl, inr, none, some, true, ℕ, ◌<◌, ◌∷◌, ◌≡◌, ◌⊎◌,
}
use preflight.GoMap.{lookup, has, keys}
use preflight.GoMap.Unmarked.{Extends, unmarked, unmarked-Extends}
use preflight.Plugin.Order.{Graph, neighbors}
use preflight.Plugin.Resolver.Edges.{Keeps, IsClean, names}
use preflight.Plugin.Resolver.{
  Work, Dependency, DependencyResolver, Manifest, resolve_each, then_work,
}

module _ (r : DependencyResolver) where
  -- All that the plugin requires is a neighbor of it.
  abbrev pub IsComplete : Graph → String → Type 0
  IsComplete g k =
      (m : Manifest)
      → lookup k r.registry ≡ some m
      → All (λ n. Has n (neighbors g k)) (names m.requires)

  -- What has a version now has had one before, or is complete.
  abbrev pub Newly : Work → Work → Type 0
  Newly w v =
      (k : String) → has k v.versions ≡ true → (has k w.versions ≡ true) ⊎ IsComplete v.graph k

  -- A run that began in `w` has come to its end; if it has found no fault, `parent` has the edges to
  -- `ns`.
  abbrev pub Settles : Work → String → List String → Option Work → Type 0
  Settles w parent ns none = ⊥
  Settles w parent ns (some v) =
      Extends w.versions v.versions
      × Keeps w v
      × (IsClean v → IsClean w × All (λ n. Has n (neighbors v.graph parent)) ns × Newly w v)

  abbrev pub HasRoom : ℕ → Work → Type 0
  HasRoom fuel w = unmarked (keys r.registry) w.versions < fuel

  abbrev pub Runs : ℕ → String → (Dependency → Work → Option Work) → Type 0
  Runs fuel parent f =
      (d : Dependency) (w : Work) → HasRoom fuel w → Settles w parent (d.name ∷ []) (f d w)

  edges_kept :
      (w v : Work) (parent : String) (ns : List String)
      → Keeps w v
      → All (λ n. Has n (neighbors w.graph parent)) ns
      → All (λ n. Has n (neighbors v.graph parent)) ns
  edges_kept w v parent [] keeps h = tt
  edges_kept w v parent (n ∷ ns) keeps h = (keeps parent n h.0, edges_kept w v parent ns keeps h.1)

  joined :
      (w v u : Work)
      → Keeps v u
      → Newly w v
      → (k : String) → (has k v.versions ≡ true) ⊎ IsComplete u.graph k
      → (has k w.versions ≡ true) ⊎ IsComplete u.graph k
  joined w v u keeps earlier k (inr complete) = inr complete
  joined w v u keeps earlier k (inl there) = elim (earlier k there) [
    | inl before ↦ inl before
    | inr complete ↦ inr (λ m e. edges_kept v u k (names m.requires) keeps (complete m e))
  ]

  then_work-Settles :
      (w : Work) (parent n : String) (ns : List String) (o : Option Work)
      (next : Work → Option Work)
      → Settles w parent (n ∷ []) o
      → ((v : Work) → Extends w.versions v.versions → Settles v parent ns (next v))
      → Settles w parent (n ∷ ns) (then_work o next)
  then_work-Settles w parent n ns none next h k = h
  then_work-Settles w parent n ns (some v) next (grown, keeps, clean) k = go (next v) (k v grown)
    where
      go : (o : Option Work) → Settles v parent ns o → Settles w parent (n ∷ ns) o
      go none h = h
      go (some u) (grown_u, keeps_u, clean_u) = (
        λ k h. grown_u k (grown k h),
        λ p m h. keeps_u p m (keeps p m h),
        λ c.
            let (cv, edges, newly) = clean_u c in
            let (cw, first, earlier) = clean cv in
            (
              cw,
              (keeps_u parent n first.0, edges),
              λ k there. joined w v u keeps_u earlier k (newly k there),
            ),
      )

  pub resolve_each-Settles :
      (fuel : ℕ) (parent : String) (f : Dependency → Work → Option Work) (ds : List Dependency)
      (w : Work)
      → Runs fuel parent f
      → HasRoom fuel w
      → Settles w parent (names ds) (resolve_each f ds w)
  unfolding resolve_each
  resolve_each-Settles fuel parent f [] w runs room =
      (λ k h. h, λ p n h. h, λ c. (c, tt, λ k there. inl there))
  resolve_each-Settles fuel parent f (d ∷ ds) w runs room =
      then_work-Settles w parent d.name (names ds) (f d w) (resolve_each f ds) (runs d w room)
        (λ v grown.
          resolve_each-Settles fuel parent f ds v runs
            (omega (arith, room, unmarked-Extends (keys r.registry) w.versions v.versions grown)))
