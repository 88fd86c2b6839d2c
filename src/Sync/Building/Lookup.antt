-- ===== src/Sync/Building/Lookup.antt =====
-- What each of the three loops of `buildMergedState` leaves under a key.
use preflight.Base.{
  Bool, All, Bool-cases, List, Option, String, [], arith, eq_iff, false, if◌then◌else◌, inl, inr,
  none, not, refl, some, str_eq, true, ◌&&◌, ◌||◌, ◌∷◌, ◌≡◌, ◌∙◌, member,
}
use preflight.GoMap.{lookup}
use preflight.GoMap.Laws.{lookup-put}
use preflight.Sync.Conflict.{PackageLockInfo, info_is_zero}
use preflight.Sync.Detector.{DetectInput}
use preflight.Sync.Resolver.{Resolution, is_skipped}
use preflight.Sync.Resolver.Rounds.{is_settled}
use preflight.Sync.State.{LockfileState, add_package}
use preflight.Sync.Building.{
  Building, build_clean, build_resolution, build_resolutions, is_clean, is_resolved, add_clean,
  add_local_or_remote, build_cleans, build_rest, build_rests,
}

-- What the merged state has under a key.
abbrev pub built_at : String → Building → Option PackageLockInfo
built_at k b = lookup k b.merged.packages

-- What a resolution that is no skip leaves where `prior` stood.
abbrev pub outcome : Option Resolution → Option PackageLockInfo → Option PackageLockInfo
outcome none prior = prior
outcome (some r) prior = if info_is_zero r.result then prior else some r.result

-- The local value of a key, or else the remote one, or else `prior`.
abbrev pub first_of_sides :
    Option PackageLockInfo
    → Option PackageLockInfo
    → Option PackageLockInfo
    → Option PackageLockInfo
first_of_sides (some info) remote prior = some info
first_of_sides none (some info) prior = some info
first_of_sides none none prior = prior

pub is_clean-member : (k : String) (ks : List String) → is_clean k ks ≡ member k ks
unfolding is_clean
is_clean-member k [] = refl
is_clean-member k (j ∷ js) = ground (arith, is_clean-member k js)

module _ (input : DetectInput) (k : String) where
  build_resolution_lem :
      (r : Resolution) (b : Building)
      → is_skipped r ≡ false
      → (built_at k (build_resolution input r b) ≡ (
          if str_eq r.conflict.package_key k
          then outcome (some r) (built_at k b)
          else built_at k b))
        × (is_resolved k (build_resolution input r b)
            ≡ (str_eq r.conflict.package_key k || is_resolved k b))
  unfolding build_resolution
  build_resolution_lem r b h = (
    ground (arith, lookup-put k r.conflict.package_key r.result b.merged.packages),
    ground (arith, lookup-put k r.conflict.package_key true b.resolved_keys),
  )

  -- In the end a key is resolved if a resolution is listed under it.
  pub build_resolutions_keys :
      (rs : List Resolution) (b : Building)
      → All (λ r. is_skipped r ≡ false) rs
      → is_resolved k (build_resolutions input rs b) ≡ (is_settled k rs || is_resolved k b)
  unfolding build_resolutions
  build_resolutions_keys [] b h = refl
  build_resolutions_keys (r ∷ rs) b h = ground (
    arith,
    build_resolutions_keys rs (build_resolution input r b) h.1,
    (build_resolution_lem r b h.0).1,
  )

  -- All resolutions under a key are one and the same, so the last one decides like the first.
  pub build_resolutions_lem :
      (o : Option Resolution) (rs : List Resolution) (b : Building)
      → All (λ r. is_skipped r ≡ false) rs
      → All (λ r. r.conflict.package_key ≡ k → o ≡ some r) rs
      → built_at k (build_resolutions input rs b)
        ≡ (if is_settled k rs then outcome o (built_at k b) else built_at k b)
  unfolding build_resolutions
  build_resolutions_lem o [] b h e = refl
  build_resolutions_lem o (r ∷ rs) b h e =
      let rest = build_resolutions_lem o rs (build_resolution input r b) h.1 e.1 in
      let (here, _) = build_resolution_lem r b h.0 in
      elim (Bool-cases (str_eq r.conflict.package_key k)) [
        | inl same ↦
            let is_r = e.0 ((eq_iff r.conflict.package_key k).0 same) in
            ground (arith, rest, here, is_r, same)
        | inr other ↦ ground (arith, rest, here, other)
      ]

  add_clean_lem :
      (j : String) (o : Option PackageLockInfo) (b : Building)
      → (built_at k (add_clean j o b)
          ≡ (if str_eq j k then first_of_sides o none (built_at k b) else built_at k b))
        × (is_resolved k (add_clean j o b) ≡ is_resolved k b)
  unfolding add_package
  add_clean_lem j none b = (ground arith, refl)
  add_clean_lem j (some info) b = (lookup-put k j info b.merged.packages, refl)

  build_clean_lem :
      (j : String) (b : Building)
      → (built_at k (build_clean input j b) ≡ (
          if str_eq j k && not (is_resolved k b)
          then first_of_sides (lookup k input.local) none (built_at k b)
          else built_at k b))
        × (is_resolved k (build_clean input j b) ≡ is_resolved k b)
  unfolding build_clean
  build_clean_lem j b =
      let (a, r) = add_clean_lem j (lookup j input.local) b in
      elim (Bool-cases (is_resolved j b)) [
        | inl old ↦ rw old (ground (arith, eq_iff j k), refl)
        | inr new ↦ rw new (ground (arith, eq_iff j k, a), r)
      ]

  pub build_cleans_lem :
      (ks : List String) (b : Building)
      → (built_at k (build_cleans input ks b) ≡ (
          if member k ks && not (is_resolved k b)
          then first_of_sides (lookup k input.local) none (built_at k b)
          else built_at k b))
        × (is_resolved k (build_cleans input ks b) ≡ is_resolved k b)
  unfolding build_cleans
  build_cleans_lem [] b = (refl, refl)
  build_cleans_lem (j ∷ js) b =
      let (a, r) = build_cleans_lem js (build_clean input j b) in
      let (a', r') = build_clean_lem j b in (ground (arith, a, a', r'), r ∙ r')

  add_local_or_remote_lem :
      (j : String) (l r : Option PackageLockInfo) (s : LockfileState)
      → lookup k (add_local_or_remote j l r s).packages
        ≡ (if str_eq j k then first_of_sides l r (lookup k s.packages) else lookup k s.packages)
  unfolding add_local_or_remote
  add_local_or_remote_lem j (some info) r s = lookup-put k j info s.packages
  add_local_or_remote_lem j none (some info) s = lookup-put k j info s.packages
  add_local_or_remote_lem j none none s = ground arith

  -- The keys that neither of the first two loops has handled.
  abbrev pub is_left : List String → Building → Bool
  is_left clean b = not (is_resolved k b) && not (member k clean)

  build_rest_lem :
      (clean : List String) (j : String) (b : Building)
      → (built_at k (build_rest input clean j b) ≡ (
          if str_eq j k && is_left clean b
          then first_of_sides (lookup k input.local) (lookup k input.remote) (built_at k b)
          else built_at k b))
        × (is_resolved k (build_rest input clean j b) ≡ is_resolved k b)
  unfolding build_rest
  build_rest_lem clean j b =
      let a = add_local_or_remote_lem j (lookup j input.local) (lookup j input.remote) b.merged in
      elim (Bool-cases (is_resolved j b)) [
        | inl old ↦ rw old (ground (arith, eq_iff j k), refl)
        | inr new ↦ elim (Bool-cases (is_clean j clean)) [
          | inl old ↦ rw (new, old) (ground (arith, eq_iff j k, is_clean-member k clean), refl)
          | inr left ↦ rw (new, left) (ground (arith, eq_iff j k, is_clean-member k clean, a), refl)
        ]
      ]

  pub build_rests_lem :
      (clean ks : List String) (b : Building)
      → (built_at k (build_rests input clean ks b) ≡ (
          if member k ks && is_left clean b
          then first_of_sides (lookup k input.local) (lookup k input.remote) (built_at k b)
          else built_at k b))
        × (is_resolved k (build_rests input clean ks b) ≡ is_resolved k b)
  unfolding build_rests
  build_rests_lem clean [] b = (refl, refl)
  build_rests_lem clean (j ∷ js) b =
      let (a, r) = build_rests_lem clean js (build_rest input clean j b) in
      let (a', r') = build_rest_lem clean j b in (ground (arith, a, a', r'), r ∙ r')
