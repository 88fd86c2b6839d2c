-- ===== src/Sync/Building.antt =====
-- internal/domain/sync/sync_engine.go: `buildMergedState`.
pub mod Lookup
pub mod Metadata
use preflight.Base.{
  Bool, ℤ, List, Option, String, [], false, if◌then◌else◌, none, some, str_eq, true, ◌+◌, ◌∷◌,
}
use preflight.GoMap.{lookup, has, put}
use preflight.Sync.VersionVector.{CausalRelation}
use preflight.Sync.Conflict.{PackageLockInfo, info_is_zero}
use preflight.Sync.Detector.{DetectResult, DetectInput, package_keys}
use preflight.Sync.Resolver.{Resolution, is_skipped}
use preflight.Sync.Metadata.{SyncMetadata}
use preflight.Sync.State.{
  LockfileState, SyncStats, add_package, new_lockfile_state_with_metadata, zero_stats,
}

-- What the loops of `buildMergedState` write.
pub record Building : Type 0 where
  pub merged : LockfileState
  pub stats : SyncStats
  pub resolved_keys : List (String × Bool)

abbrev pub or_false : Option Bool → Bool
or_false none = false
or_false (some b) = b

-- `resolvedKeys[key]`
abbrev pub is_resolved : String → Building → Bool
is_resolved key b = or_false (lookup key b.resolved_keys)

abbrev pub add_if_some : String → Option PackageLockInfo → LockfileState → LockfileState
add_if_some key none s = s
add_if_some key (some info) s = add_package key info s

-- An addition on one side, or an update.
unfoldable pub count_outcome : Bool → Bool → SyncStats → SyncStats
count_outcome false true stats = record stats { packages_added = stats.packages_added + 1 }
count_outcome true false stats = record stats { packages_added = stats.packages_added + 1 }
count_outcome _ _ stats = record stats { packages_updated = stats.packages_updated + 1 }

-- One round of the loop over the resolutions.
unfoldable pub build_resolution : DetectInput → Resolution → Building → Building
unfolding count_outcome add_package
build_resolution input res b =
    let key = res.conflict.package_key in
    let b' : Building = record b { resolved_keys = put key true b.resolved_keys } in
    if is_skipped res
    then record b' { merged = add_if_some key (lookup key input.local) b.merged }
    else if info_is_zero res.result
    then record b' { stats = record b.stats { packages_removed = b.stats.packages_removed + 1 } }
    else record b' {
      merged = add_package key res.result b.merged;
      stats = count_outcome (has key input.local) (has key input.remote) b.stats;
    }

unfoldable pub build_resolutions : DetectInput → List Resolution → Building → Building
unfolding build_resolution
build_resolutions input [] b = b
build_resolutions input (res ∷ rest) b = build_resolutions input rest (build_resolution input res b)

abbrev pub add_clean : String → Option PackageLockInfo → Building → Building
add_clean key none b = b
add_clean key (some info) b = record b {
  merged = add_package key info b.merged;
  stats = record b.stats { packages_unchanged = b.stats.packages_unchanged + 1 };
}

-- One round of the loop over the clean packages.
unfoldable pub build_clean : DetectInput → String → Building → Building
unfolding add_package
build_clean input key b = if is_resolved key b then b else add_clean key (lookup key input.local) b

unfoldable pub build_cleans : DetectInput → List String → Building → Building
unfolding build_clean
build_cleans input [] b = b
build_cleans input (key ∷ ks) b = build_cleans input ks (build_clean input key b)

-- The search for a key among the clean ones.
unfoldable pub is_clean : String → List String → Bool
is_clean key [] = false
is_clean key (clean_key ∷ ks) = if str_eq clean_key key then true else is_clean key ks

unfoldable pub add_local_or_remote :
    String → Option PackageLockInfo → Option PackageLockInfo → LockfileState → LockfileState
unfolding add_package
add_local_or_remote key (some info) remote s = add_package key info s
add_local_or_remote key none (some info) s = add_package key info s
add_local_or_remote key none none s = s

-- One round of the loop over all keys.
unfoldable pub build_rest : DetectInput → List String → String → Building → Building
unfolding add_local_or_remote is_clean
build_rest input clean key b =
    if is_resolved key b then b else if is_clean key clean then b else record b {
      merged = add_local_or_remote key (lookup key input.local) (lookup key input.remote) b.merged;
    }

unfoldable pub build_rests : DetectInput → List String → List String → Building → Building
unfolding build_rest
build_rests input clean [] b = b
build_rests input clean (key ∷ ks) b = build_rests input clean ks (build_rest input clean key b)

unfoldable pub build_merged_state :
    SyncMetadata → DetectInput → DetectResult → List Resolution → Building
unfolding build_resolutions build_cleans build_rests new_lockfile_state_with_metadata
build_merged_state meta input detected resolutions =
    build_rests input detected.clean (package_keys input) (
      build_cleans input detected.clean (
        build_resolutions input resolutions (record {
          merged = new_lockfile_state_with_metadata meta;
          stats = zero_stats;
          resolved_keys = [];
        })))
