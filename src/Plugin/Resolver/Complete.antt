-- ===== src/Plugin/Resolver/Complete.antt =====
-- The resolution of dependencies ends, and misses none.
use preflight.Base.{
  String, All, Bool-cases, Has, Option, [], arith, eq_iff, if◌then◌else◌, inl, inr, none, some,
  str_eq, subst, sym, true, ℕ, ◌++◌, ◌∷◌, ◌≡◌, ◌⊎◌, Option-cases, ap, suc, zero, ◌∙◌,
}
use preflight.GoMap.{put, lookup, has, keys, is_some}
use preflight.GoMap.Laws.{lookup-put, Has-keys}
use preflight.GoMap.Unmarked.{Extends-put, unmarked-put}
use preflight.Plugin.Order.{neighbors}
use preflight.Plugin.Resolver.Edges.{
  add_edge-keeps, add_edge-new, if_lem, names, neighbors-add_node, snoc_lem,
}
use preflight.Plugin.Resolver.Steps.{
  dependency_again, dependency_found, dependency_lacks, dependency_unknown,
}
use preflight.Plugin.Resolver.{
  Work, Dependency, DependencyResolver, Manifest, add_edge, add_node, enter_dependency,
  resolve_again, DependencyConflict, is_missing, report_missing, resolve_dependency,
}
use preflight.Plugin.Resolver.Settled.{IsComplete, Settles, Runs, resolve_each-Settles}

module _ (r : DependencyResolver) where
  edge_lem :
      (d : Dependency) (parent : String) (w : Work)
      → Settles r w parent
          (d.name ∷ [])
          (some (record w { graph = add_edge parent d.name w.graph }))
  edge_lem d parent w = (
    λ k h. h,
    λ p n h. add_edge-keeps parent d.name p n w.graph h,
    λ c. (c, (add_edge-new parent d.name w.graph, tt), λ k there. inl there),
  )

  newer_lem :
      (d : Dependency) (parent existing : String) (w : Work)
      → lookup d.name w.versions ≡ some existing
      → Settles r w parent (d.name ∷ []) (
          some (record w {
            graph = add_edge parent d.name w.graph;
            versions = put d.name d.version w.versions;
            requirers = put d.name parent w.requirers;
          }))
  newer_lem d parent existing w e = (
    Extends-put d.name d.version w.versions,
    λ p n h. add_edge-keeps parent d.name p n w.graph h,
    λ c. (c, (add_edge-new parent d.name w.graph, tt), λ k there. inl (before k there)),
  )
    where
      before :
          (k : String) → has k (put d.name d.version w.versions) ≡ true → has k w.versions ≡ true
      before k there =
          ground (arith, there, e, eq_iff d.name k, lookup-put k d.name d.version w.versions)

  conflict_lem :
      (d : Dependency) (parent : String) (w : Work) (c : DependencyConflict)
      → Settles r w parent (d.name ∷ []) (some (record w { conflicts = w.conflicts ++ c ∷ [] }))
  conflict_lem d parent w c =
      (λ k h. h, λ p n h. h, λ clean. absurd (snoc_lem w.conflicts c clean.1))

  missing_lem :
      (d : Dependency) (parent : String) (w : Work)
      → Settles r w parent (d.name ∷ []) (some (report_missing d w))
  missing_lem d parent w = (λ k h. h, λ p n h. h, λ clean. absurd (snoc_lem w.missing d clean.0))

  again_lem :
      (d : Dependency) (parent existing : String) (w : Work)
      → lookup d.name w.versions ≡ some existing
      → Settles r w parent (d.name ∷ []) (some (resolve_again r d parent existing w))
  unfolding resolve_again
  again_lem d parent existing w e =
      if_lem P _ _ _
        (if_lem P r.strict _ _ (conflict_lem d parent w _)
          (if_lem P _ _ _ (newer_lem d parent existing w e) (edge_lem d parent w)))
        (edge_lem d parent w)
    where
      P : Work → Type 0
      P v = Settles r w parent (d.name ∷ []) (some v)

  entered_lem :
      (d : Dependency) (parent : String) (m : Manifest) (w : Work) (o : Option Work)
      → lookup d.name r.registry ≡ some m
      → Settles r (enter_dependency d parent m w) d.name (names m.requires) o
      → Settles r w parent (d.name ∷ []) o
  entered_lem d parent m w none e h = h
  entered_lem d parent m w (some u) e (grown, keeps, clean) = (
    λ k h. grown k (Extends-put d.name _ w.versions k h),
    λ p n h. keeps p n (kept p n (add_edge-keeps parent d.name p n w.graph h)),
    λ c.
        let (cw, edges, newly) = clean c in
        (
          cw,
          (keeps parent d.name (kept parent d.name (add_edge-new parent d.name w.graph)), tt),
          λ k there. new_or_old edges k (newly k there),
        ),
  )
    where
      kept :
          (p n : String)
          → Has n (neighbors (add_edge parent d.name w.graph) p)
          → Has n (neighbors (add_node d.name (add_edge parent d.name w.graph)) p)
      kept p n h =
          subst (Has n) (sym (neighbors-add_node d.name p (add_edge parent d.name w.graph))) h

      moved :
          All (λ n. Has n (neighbors u.graph d.name)) (names m.requires)
          → (k : String) (n : Manifest) → d.name ≡ k
          → lookup k r.registry ≡ some n
          → All (λ x. Has x (neighbors u.graph k)) (names n.requires)
      moved edges k n same found =
          let one : ◌≡◌ {A = Option Manifest} (some m) (some n) =
            sym e ∙ (ap (λ j. lookup j r.registry) same ∙ found) in
          let equal : m ≡ n = cc in
          subst (λ (x : Manifest). All (λ y. Has y (neighbors u.graph k)) (names x.requires)) equal
            (subst (λ j. All (λ y. Has y (neighbors u.graph j)) (names m.requires)) same edges)

      new_or_old :
          All (λ n. Has n (neighbors u.graph d.name)) (names m.requires)
          → (k : String)
          → (has k (enter_dependency d parent m w).versions ≡ true) ⊎ IsComplete r u.graph k
          → (has k w.versions ≡ true) ⊎ IsComplete r u.graph k
      new_or_old edges k (inr complete) = inr complete
      new_or_old edges k (inl there) = elim (Bool-cases (str_eq d.name k)) [
        | inl same ↦ inr (λ n found. moved edges k n ((eq_iff d.name k).0 same) found)
        | inr ne ↦ inl (
            ground (
              arith,
              there,
              ne,
              lookup-put k d.name (if str_eq d.version "" then m.plugin_version else d.version)
                  w.versions,
            ))
      ]

  pub resolve_dependency-Settles :
      (fuel : ℕ) (parent : String) → Runs r fuel parent (resolve_dependency fuel r parent)
  resolve_dependency-Settles zero parent d w room = absurd (omega (arith, room))
  resolve_dependency-Settles (suc fuel) parent d w room =
      elim (Option-cases (lookup d.name w.versions)) [
        | inr (existing, e) ↦
            subst (Settles r w parent (d.name ∷ []))
              (sym (dependency_again fuel r parent d w existing e))
              (again_lem d parent existing w e)
        | inl fresh ↦ elim (Option-cases (lookup d.name r.registry)) [
          | inl unknown ↦
              subst (Settles r w parent (d.name ∷ []))
                (sym (dependency_unknown fuel r parent d w fresh unknown)) (missing_lem d parent w)
          | inr (m, found) ↦ elim (Bool-cases (is_missing r d m)) [
            | inl lacks ↦
                subst (Settles r w parent (d.name ∷ []))
                  (sym (dependency_lacks fuel r parent d w m fresh found lacks))
                  (missing_lem d parent w)
            | inr fits ↦
                subst (Settles r w parent (d.name ∷ []))
                  (sym (dependency_found fuel r parent d w m fresh found fits))
                  (entered_lem d parent m w _ found (
                    resolve_each-Settles r fuel d.name (resolve_dependency fuel r d.name) m.requires
                      (enter_dependency d parent m w) (resolve_dependency-Settles fuel d.name)
                      (omega (
                        arith,
                        room,
                        unmarked-put d.name
                            (if str_eq d.version "" then m.plugin_version else d.version)
                            (keys r.registry) w.versions
                            (Has-keys d.name r.registry (ap is_some found)) (ap is_some fresh),
                      ))))
          ]
        ]
      ]
