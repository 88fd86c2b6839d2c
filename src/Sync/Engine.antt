-- ===== src/Sync/Engine.antt =====
-- internal/domain/sync/sync_engine.go: synchronisation and manual resolution.
pub mod Pointwise
pub mod Converge
pub mod Manual
pub mod Vector
use preflight.Base.{
  Bool, ℤ, List, Option, String, [], decrement, false, if◌then◌else◌, length, none, pos, some,
  str_eq, true, ℕ, ◌++◌, ◌+◌, ◌∷◌,
}
use preflight.GoMap.{lookup, remove}
use preflight.Sync.VersionVector.{
  CausalRelation, compare, concurrent, is_after, is_concurrent, is_equal, is_before,
}
use preflight.Sync.Conflict.{PackageLockInfo, LockConflict}
use preflight.Sync.Detector.{DetectResult, DetectInput, Packages, all_conflicts, detect}
use preflight.Sync.Resolver.{
  Resolution, ResolutionChoice, is_delete, is_skipped, resolve_all, resolve_manually,
}
use preflight.Sync.Metadata.{SyncMetadata, merge_metadata, record_activity}
use preflight.Sync.State.{
  LockfileState, Result, SyncEngine, SyncError, SyncInput, SyncResult, add_package,
  conflict_not_found, err, no_local_state, no_remote_state, ok,
}
use preflight.Sync.Building.{Building, build_merged_state}

unfoldable pub merged_metadata : SyncEngine → LockfileState → LockfileState → ℕ → SyncMetadata
merged_metadata e local remote now =
    if str_eq e.machine_id ""
    then merge_metadata local.metadata remote.metadata
    else record_activity (merge_metadata local.metadata remote.metadata) e.machine_id e.hostname now

abbrev pub base_packages : Option LockfileState → Packages
base_packages none = []
base_packages (some s) = s.packages

unfoldable pub detect_input : LockfileState → LockfileState → Option LockfileState → DetectInput
detect_input local remote base = record {
  local = local.packages;
  remote = remote.packages;
  base = base_packages base;
}

-- `Sync` on states that are there.
unfoldable pub sync_states :
    SyncEngine → LockfileState → LockfileState → Option LockfileState → ℕ → SyncResult
unfolding build_merged_state merged_metadata detect_input
sync_states e local remote base now =
    let input = detect_input local remote base in
    let detected = detect input in
    let (resolved, unresolved) = resolve_all e.strategy (all_conflicts detected) in
    let built = build_merged_state (merged_metadata e local remote now) input detected resolved in
    record {
      merged = built.merged;
      resolutions = resolved;
      manual_conflicts = unresolved;
      stats = record built.stats {
        conflicts_auto_resolved = length resolved;
        conflicts_manual = pos (length unresolved);
      };
    }

unfoldable pub checked_sync :
    SyncEngine
    → Option LockfileState
    → Option LockfileState
    → Option LockfileState
    → ℕ
    → Result SyncResult
unfolding sync_states
checked_sync e none remote base now = err no_local_state
checked_sync e (some local) none base now = err no_remote_state
checked_sync e (some local) (some remote) base now = ok (sync_states e local remote base now)

unfoldable pub sync : SyncEngine → SyncInput → ℕ → Result SyncResult
unfolding checked_sync
sync e input now = checked_sync e input.local input.remote input.base now

-- `Pull`, and `Push`, which sees the two states in the same way.
unfoldable pub pull :
    SyncEngine → Option LockfileState → Option LockfileState → ℕ → Result SyncResult
unfolding sync
pull e local remote now = sync e (record { local = local; remote = remote; base = none }) now

unfoldable pub push :
    SyncEngine → Option LockfileState → Option LockfileState → ℕ → Result SyncResult
unfolding sync
push e local remote now = sync e (record { local = local; remote = remote; base = none }) now

unfoldable pub three_way_sync :
    SyncEngine
    → Option LockfileState
    → Option LockfileState
    → Option LockfileState
    → ℕ
    → Result SyncResult
unfolding sync
three_way_sync e local remote base now =
    sync e (record { local = local; remote = remote; base = base }) now

-- The loop of `ResolveManualConflict`: whether the key is there, and the conflicts under others.
unfoldable pub without_conflict : String → List LockConflict → Bool × List LockConflict
without_conflict key [] = (false, [])
without_conflict key (c ∷ cs) =
    let (found, rest) = without_conflict key cs in
    if str_eq c.package_key key then (true, rest) else (found, c ∷ rest)

-- What a resolution does to the merged state and the counters.
unfoldable pub apply_resolution : String → Resolution → SyncResult → SyncResult
unfolding add_package
apply_resolution key res r =
    if is_skipped res
    then r
    else if is_delete res
    then record r {
      merged = record r.merged { packages = remove key r.merged.packages };
      stats = record r.stats { packages_removed = r.stats.packages_removed + 1 };
    }
    else record r {
      merged = add_package key res.result r.merged;
      stats = record r.stats { packages_updated = r.stats.packages_updated + 1 };
    }

unfoldable pub resolve_manual_conflict :
    SyncResult → LockConflict → ResolutionChoice → SyncResult × Option SyncError
unfolding without_conflict apply_resolution
resolve_manual_conflict result conflict choice =
    let (found, new_manual) = without_conflict conflict.package_key result.manual_conflicts in
    let resolution = resolve_manually conflict choice in
    let r = apply_resolution conflict.package_key resolution (record result {
      resolutions = result.resolutions ++ resolution ∷ [];
      manual_conflicts = new_manual;
    }) in
    if found
    then (
      record r { stats = record r.stats { conflicts_manual = decrement r.stats.conflicts_manual } },
      none,
    )
    else (result, some (conflict_not_found conflict.package_key))

unfoldable pub compare_states : Option LockfileState → Option LockfileState → CausalRelation
compare_states (some local) (some remote) = compare local.metadata.vector remote.metadata.vector
compare_states _ _ = concurrent

unfoldable pub needs_merge : Option LockfileState → Option LockfileState → Bool
needs_merge local remote = is_concurrent (compare_states local remote)

unfoldable pub is_ahead : Option LockfileState → Option LockfileState → Bool
is_ahead local remote = is_after (compare_states local remote)

unfoldable pub is_behind : Option LockfileState → Option LockfileState → Bool
is_behind local remote = is_before (compare_states local remote)

unfoldable pub is_in_sync : Option LockfileState → Option LockfileState → Bool
is_in_sync local remote = is_equal (compare_states local remote)
