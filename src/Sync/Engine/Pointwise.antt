-- ===== src/Sync/Engine/Pointwise.antt =====
-- A synchronisation, key by key.
use preflight.Sync.Detector.Keys.{is_key, conflict_at-absent, member-package_keys}
use preflight.Sync.Detector.Keys.{is_conflicting}
use preflight.Sync.Metadata.{SyncMetadata}
use preflight.Base.{
  All, List, Option, String, [], arith, false, if◌then◌else◌, none, not, some, subst, ◌&&◌, ◌∷◌,
  ◌≡◌, ◌∙◌, ℕ, member,
}
use preflight.GoMap.{lookup, is_some}
use preflight.Sync.Conflict.{PackageLockInfo, LockConflict, conflict_is_zero, info_is_zero}
use preflight.Sync.Detector.{
  DetectInput, all_conflicts, conflict_at, detect, detect_conflict, package_keys,
}
use preflight.Sync.Resolver.{Resolution, ResolutionStrategy, is_skipped, resolve, resolve_all}
use preflight.Sync.Resolver.Rounds.{
  is_settled, IsOf, IsSettledAt, resolve-IsOf, resolve_rounds-IsSettledAt, resolve_rounds_keys,
  settled_at, settles,
}
use preflight.Sync.State.{LockfileState, new_lockfile_state_with_metadata, zero_stats, SyncEngine}
use preflight.Sync.Building.{Building, build_merged_state, build_cleans, build_resolutions}
use preflight.Sync.Building.Lookup.{
  built_at, first_of_sides, build_cleans_lem, build_resolutions_keys, build_resolutions_lem,
  build_rests_lem, outcome,
}
use preflight.Sync.Detector.Partition.{
  all_conflicts-IsAtKey, is_key-all_conflicts, detect_partition,
}
use preflight.Sync.Engine.{base_packages, detect_input, merged_metadata, sync_states}

-- The entry of a key after a resolution of its conflict; a resolution with no package removes it.
abbrev pub settled_entry : Resolution → Option PackageLockInfo
settled_entry r = if info_is_zero r.result then none else some r.result

-- A resolved conflict leaves its resolution, and any other key keeps the local entry, or else
-- the remote one.
abbrev pub entry_of :
    Option Resolution → Option PackageLockInfo → Option PackageLockInfo → Option PackageLockInfo
entry_of none local remote = first_of_sides local remote none
entry_of (some r) local remote = settled_entry r

-- A key's entry after a synchronisation, told from its three entries alone.
unfoldable pub merged_entry :
    ResolutionStrategy
    → String
    → Option PackageLockInfo
    → Option PackageLockInfo
    → Option PackageLockInfo
    → Option PackageLockInfo
merged_entry s k local remote base =
    let c = detect_conflict k local remote base in
    if conflict_is_zero c
    then first_of_sides local remote none
    else entry_of (resolve s c) local remote

not_skipped :
    (c : LockConflict) (o : Option Resolution) (r : Resolution)
    → IsOf c o
    → o ≡ some r
    → is_skipped r ≡ false
not_skipped c none r h e = cc
not_skipped c (some q) r (settles _ ns) e = cc

module _ (s : ResolutionStrategy) (input : DetectInput) where
  settled_not_skipped :
      (rs : List Resolution) → All (IsSettledAt s input) rs → All (λ r. is_skipped r ≡ false) rs
  settled_not_skipped [] h = tt
  settled_not_skipped (r ∷ rs) h = (
    not_skipped (conflict_at input r.conflict.package_key) _ r (resolve-IsOf s _) h.0,
    settled_not_skipped rs h.1,
  )

  settled_same :
      (k : String) (rs : List Resolution)
      → All (IsSettledAt s input) rs
      → All (λ r. r.conflict.package_key ≡ k → settled_at s input k ≡ some r) rs
  settled_same k [] h = tt
  settled_same k (r ∷ rs) h =
      (λ e. subst (λ j. settled_at s input j ≡ some r) e h.0, settled_same k rs h.1)

  resolutions : List Resolution
  resolutions = (resolve_all s (all_conflicts (detect input))).0

  resolutions-IsSettledAt : All (IsSettledAt s input) resolutions
  unfolding resolutions resolve_all
  resolutions-IsSettledAt =
      resolve_rounds-IsSettledAt s input (all_conflicts (detect input)) ([], [])
        (all_conflicts-IsAtKey input) tt

  -- A key has a resolution, or is left for manual resolution, as its conflict decides.
  pub resolve_all_keys :
      (k : String)
      → (is_settled k (resolve_all s (all_conflicts (detect input))).0
          ≡ (is_conflicting input k && is_some (settled_at s input k)))
        × (is_key k (resolve_all s (all_conflicts (detect input))).1
            ≡ (is_conflicting input k && not (is_some (settled_at s input k))))
  unfolding resolve_all
  resolve_all_keys k =
      let (a, b) =
        resolve_rounds_keys s input (all_conflicts (detect input)) k ([], [])
          (all_conflicts-IsAtKey input) in
      (
        ground (arith, a, is_key-all_conflicts input k),
        ground (arith, b, is_key-all_conflicts input k),
      )

  abbrev start : SyncMetadata → Building
  start meta = record {
    merged = new_lockfile_state_with_metadata meta;
    stats = zero_stats;
    resolved_keys = [];
  }

  -- The three loops, one after the other, in terms of the lists that they go through.
  loops_lem :
      (meta : SyncMetadata) (k : String)
      → let settled = is_settled k resolutions in
        let clean = member k (detect input).clean in
        let prior = if settled then outcome (settled_at s input k) none else none in
        let cleaned =
          if clean && not settled
          then first_of_sides (lookup k input.local) none prior
          else prior in
        built_at k (build_merged_state meta input (detect input) resolutions) ≡ (
          if member k (package_keys input) && (not settled && not clean)
          then first_of_sides (lookup k input.local) (lookup k input.remote) cleaned
          else cleaned)
  unfolding build_merged_state new_lockfile_state_with_metadata lookup
  loops_lem meta k =
      let b = build_resolutions input resolutions (start meta) in
      let b' = build_cleans input (detect input).clean b in
      let ns = settled_not_skipped resolutions resolutions-IsSettledAt in
      let same = settled_same k resolutions resolutions-IsSettledAt in
      let at_end = build_rests_lem input k (detect input).clean (package_keys input) b' in
      let at_clean = build_cleans_lem input k (detect input).clean b in
      let at_first =
        build_resolutions_lem input k (settled_at s input k) resolutions (start meta) ns same in
      let keys = build_resolutions_keys input k resolutions (start meta) ns in
      ground (arith, at_end, at_clean, at_first, keys)

  build_lem :
      (meta : SyncMetadata) (k : String)
      → built_at k (build_merged_state meta input (detect input) resolutions)
        ≡ merged_entry s k (lookup k input.local) (lookup k input.remote) (lookup k input.base)
  unfolding merged_entry conflict_at resolutions
  build_lem meta k =
      let (settled, _) = resolve_all_keys k in
      let (_, _, clean) = detect_partition input k in
      let seen = member-package_keys input k in
      loops_lem meta k ∙ ground (arith, settled, clean, seen, conflict_at-absent input k)

-- The merged state has under each key what `merged_entry` tells from that key's local, remote and
-- base entry, whatever the other packages are and in whatever order the maps list them.
pub sync_pointwise :
    (e : SyncEngine) (local remote : LockfileState) (base : Option LockfileState) (now : ℕ)
    (k : String)
    → lookup k (sync_states e local remote base now).merged.packages
      ≡ merged_entry e.strategy k
          (lookup k local.packages)
          (lookup k remote.packages)
          (lookup k (base_packages base))
unfolding sync_states detect_input resolutions
sync_pointwise e local remote base now k =
    build_lem e.strategy (detect_input local remote base) (merged_metadata e local remote now) k
