-- ===== src/Plugin/Resolver/Install.antt =====
-- What a resolution without faults has: all that is required, in an order that can be installed.
use preflight.Base.{
  String, returns, All, Has, List, Option, [], ap, arith, false, inl, inr, length, ltb, none, refl,
  some, subst, true, ◌+◌, ◌∷◌, ◌≡◌, ◌≢◌, Bool-cases, Fallible, Option-cases, fails, ◌⊎◌, sym,
}
use preflight.GoMap.{lookup, keys, has, is_some}
use preflight.GoMap.Laws.{length-keys}
use preflight.GoMap.Unmarked.{unmarked_le}
use preflight.Plugin.Order.{neighbors, install_order}
use preflight.Plugin.Order.Precedes.{Precedes, Follows-Has, precede, required}
use preflight.Plugin.Order.Sound.{IsOrder, Judged, install_order_lem}
use preflight.Plugin.Resolver.{
  Work, DependencyResolver, Manifest, finish_resolution, has_errors, new_work, resolve_dependency,
  resolve_each, resolve_manifest, resolved_list, ResolutionResult, result_of, Dependency,
}
use preflight.Plugin.Resolver.Edges.{names, IsClean}
use preflight.Plugin.Resolver.Complete.{resolve_dependency-Settles}
use preflight.Plugin.Resolver.Settled.{Settles, resolve_each-Settles, Newly}

resolved_list-none :
    (versions : List (String × String)) (n : String) (ns : List String)
    → lookup n versions ≡ none
    → resolved_list versions (n ∷ ns) ≡ resolved_list versions ns
unfolding resolved_list
resolved_list-none versions n ns e = rw (resolved_list, e) refl

resolved_list-some :
    (versions : List (String × String)) (n : String) (ns : List String) (v : String)
    → lookup n versions ≡ some v
    → resolved_list versions (n ∷ ns) ≡ record { name = n; version = v } ∷ resolved_list versions ns
unfolding resolved_list
resolved_list-some versions n ns v e = rw (resolved_list, e) refl

listed :
    (versions : List (String × String)) (n : String) (ns : List String) (k v : String)
    → lookup n versions ≡ some v
    → (Has k (names (resolved_list versions ns)) → Has k ns × (has k versions ≡ true))
    → (n ≡ k) ⊎ Has k (names (resolved_list versions ns))
    → ((n ≡ k) ⊎ Has k ns) × (has k versions ≡ true)
listed versions n ns k v e later (inl same) =
    (inl same, subst (λ j. has j versions ≡ true) same (ap is_some e))
listed versions n ns k v e later (inr there) = let (h, version) = later there in (inr h, version)

resolved_list-Has :
    (versions : List (String × String)) (order : List String) (k : String)
    → Has k (names (resolved_list versions order))
    → Has k order × (has k versions ≡ true)
unfolding resolved_list
resolved_list-Has versions [] k h = absurd h
resolved_list-Has versions (n ∷ ns) k h = elim (Option-cases (lookup n versions)) [
  | inl gone ↦
      let (there, version) =
        resolved_list-Has versions ns k
          (subst (λ ds. Has k (names ds)) (resolved_list-none versions n ns gone) h) in
      (inr there, version)
  | inr (v, e) ↦
      listed versions n ns k v e (resolved_list-Has versions ns k)
        (subst (λ ds. Has k (names ds)) (resolved_list-some versions n ns v e) h)
]

empty_of : {A : Type 0} (xs : List A) → ltb 0 (length xs) ≡ false → xs ≡ []
empty_of [] h = refl
empty_of (x ∷ xs) h = ground (arith, h)

unfaulty : (w : Work) → has_errors w ≡ false → IsClean w
unfaulty w h = (empty_of w.missing (ground (arith, h)), empty_of w.conflicts (ground (arith, h)))

result_of-done :
    (w : Work) (x : Option (Fallible (List String) (List String)))
    → Judged w.graph x
    → ¬ (result_of w x ≡ none)
result_of-done w none h e = h
result_of-done w (some (fails cycle)) h e = cc
result_of-done w (some (returns order)) h e = cc

order_read :
    (w : Work) (order : List String) (result : ResolutionResult)
    → result_of w (some (returns order)) ≡ some (returns result)
    → (order ≡ result.order) × (resolved_list w.versions order ≡ result.resolved)
order_read w order result e = (ground (arith, e), ground (arith, e))

no_fault :
    (w : Work) (result : ResolutionResult)
    → has_errors w ≡ true
    → ◌≡◌ {A = Option (Fallible (List String) ResolutionResult)}
        (some (
          returns (record {
            resolved = [];
            missing_dependencies = w.missing;
            version_conflicts = w.conflicts;
            order = [];
          })))
        (some (returns result))
    → result.missing_dependencies ≡ []
    → result.version_conflicts ≡ []
    → ⊥
no_fault w result faults e fine free =
    let missing : w.missing ≡ [] = ground (arith, e, fine) in
    let conflicts : w.conflicts ≡ [] = ground (arith, e, free) in
    ground (arith, faults, missing, conflicts)

-- What is required of a result, of its root and of each plugin in it.
abbrev pub IsInstallable :
    DependencyResolver → Manifest → ResolutionResult → String → Manifest → Type 0
IsInstallable r manifest result k m =
    All (λ n. Has n result.order) (names manifest.requires)
    × All (λ n. Precedes n k result.order) (names m.requires)

module _ (r : DependencyResolver) (manifest : Manifest) where
  -- The state that the loop over the manifest's requirements leaves.
  abbrev gathered : Option Work
  gathered =
      resolve_each (resolve_dependency (length r.registry + 1) r manifest.plugin_name)
        manifest.requires new_work

  gathered-Settles : Settles r new_work manifest.plugin_name (names manifest.requires) gathered
  gathered-Settles =
      resolve_each-Settles r (length r.registry + 1) manifest.plugin_name
        (resolve_dependency (length r.registry + 1) r manifest.plugin_name) manifest.requires
        new_work (resolve_dependency-Settles r (length r.registry + 1) manifest.plugin_name)
        (omega (arith, unmarked_le (keys r.registry) new_work.versions, length-keys r.registry))

  finish_resolution-done :
      (o : Option Work)
      → Settles r new_work manifest.plugin_name (names manifest.requires) o
      → finish_resolution o ≢ none
  finish_resolution-done none h e = h
  finish_resolution-done (some w) h e = elim (Bool-cases (has_errors w)) [
    | inl faults ↦ result_some (rw faults at e)
    | inr fine ↦ result_of-done w (install_order w.graph) (install_order_lem w.graph) (rw fine at e)
  ]
    where
      result_some : {A : Type 0} {a : A} → ¬ (some a ≡ none)
      result_some e = cc

  -- A resolution always ends: the fuel is enough, whatever the registry holds.
  pub resolve_manifest-done : resolve_manifest r manifest ≢ none
  unfolding resolve_manifest
  resolve_manifest-done = finish_resolution-done gathered gathered-Settles

  built :
      (w : Work) (order : List String) (k : String) (m : Manifest)
      → IsOrder w.graph order
      → Newly r new_work w
      → Has k (names (resolved_list w.versions order))
      → lookup k r.registry ≡ some m
      → All (λ n. Precedes n k order) (names m.requires)
  unfolding lookup
  built w order k m (all, once, follows) newly there found =
      let (h, version) = resolved_list-Has w.versions order k there in
      let (xs, ys, split, below) = Follows-Has w.graph [] order k follows h in
      elim (newly k version) [
        | inl before ↦ cc
        | inr complete ↦
            precede order xs ys k (names m.requires) (neighbors w.graph k) split below
              (complete m found)
      ]

  result_lem :
      (w : Work) (x : Option (Fallible (List String) (List String))) (result : ResolutionResult)
      (k : String) (m : Manifest)
      → Judged w.graph x
      → All (λ n. Has n (neighbors w.graph manifest.plugin_name)) (names manifest.requires)
      → Newly r new_work w
      → result_of w x ≡ some (returns result)
      → Has k (names result.resolved)
      → lookup k r.registry ≡ some m
      → IsInstallable r manifest result k m
  result_lem w none result k m judged edges newly e there found = absurd judged
  result_lem w (some (fails cycle)) result k m judged edges newly e there found = cc
  result_lem w (some (returns order)) result k m judged edges newly e there found =
      let (ordered, listing) = order_read w order result e in
      subst
        (λ (o : List String).
          All (λ n. Has n o) (names manifest.requires)
          × All (λ n. Precedes n k o) (names m.requires))
        ordered
        (
          required w.graph manifest.plugin_name order judged (names manifest.requires) edges,
          built w order k m judged newly
              (subst (λ (ds : List Dependency). Has k (names ds)) (sym listing) there) found,
        )

  finish_lem :
      (o : Option Work) (result : ResolutionResult) (k : String) (m : Manifest)
      → Settles r new_work manifest.plugin_name (names manifest.requires) o
      → finish_resolution o ≡ some (returns result)
      → result.missing_dependencies ≡ []
      → result.version_conflicts ≡ []
      → Has k (names result.resolved)
      → lookup k r.registry ≡ some m
      → IsInstallable r manifest result k m
  finish_lem none result k m settled e fine free there found = absurd settled
  finish_lem (some w) result k m (_, _, clean) e fine free there found =
      elim (Bool-cases (has_errors w)) [
        | inl faults ↦ absurd (no_fault w result faults (rw faults at e) fine free)
        | inr good ↦
            let (_, edges, newly) = clean (unfaulty w good) in
            result_lem w (install_order w.graph) result k m (install_order_lem w.graph) edges newly
              (rw good at e) there found
      ]

  -- In a resolution without faults, what the manifest requires is in the order of installation, and
  -- for each plugin that has been resolved, what it requires stands in front of it.
  pub resolve_manifest_lem :
      (result : ResolutionResult) (k : String) (m : Manifest)
      → resolve_manifest r manifest ≡ some (returns result)
      → result.missing_dependencies ≡ []
      → result.version_conflicts ≡ []
      → Has k (names result.resolved)
      → lookup k r.registry ≡ some m
      → IsInstallable r manifest result k m
  unfolding resolve_manifest
  resolve_manifest_lem result k m e fine free there found =
      finish_lem gathered result k m gathered-Settles e fine free there found
