-- ===== src/Sync/State.antt =====
-- internal/domain/sync/sync_engine.go: the types of the engine.
use preflight.Base.{
  Bool, ℤ, List, Option, String, [], length, ltb, pos, ℕ, ◌==◌, none, not, some, true,
}
use preflight.GoMap.{put}
use preflight.Sync.VersionVector.{new_version_vector}
use preflight.Sync.Conflict.{PackageLockInfo, LockConflict}
use preflight.Sync.Detector.{Packages}
use preflight.Sync.Resolver.{Resolution, ResolutionStrategy, auto}
use preflight.Sync.Metadata.{SyncMetadata, new_sync_metadata}

-- The detector has no state, and the resolver's is its strategy.
pub record SyncEngine : Type 0 where
  pub strategy : ResolutionStrategy
  pub machine_id : String
  pub hostname : String

unfoldable pub new_sync_engine : SyncEngine
new_sync_engine = record { strategy = auto; machine_id = ""; hostname = "" }

unfoldable pub with_resolver : ResolutionStrategy → SyncEngine → SyncEngine
with_resolver strategy e = record e { strategy = strategy }

unfoldable pub with_machine_id : String → String → SyncEngine → SyncEngine
with_machine_id id hostname e = record e { machine_id = id; hostname = hostname }

pub record LockfileState : Type 0 where
  pub packages : Packages
  pub metadata : SyncMetadata

unfoldable pub new_lockfile_state_with_metadata : SyncMetadata → LockfileState
new_lockfile_state_with_metadata meta = record { packages = []; metadata = meta }

unfoldable pub new_lockfile_state : LockfileState
unfolding new_lockfile_state_with_metadata
new_lockfile_state = new_lockfile_state_with_metadata (new_sync_metadata new_version_vector)

unfoldable pub add_package : String → PackageLockInfo → LockfileState → LockfileState
add_package key info s = record s { packages = put key info s.packages }

-- A nil pointer is `none`.
pub record SyncInput : Type 0 where
  pub local : Option LockfileState
  pub remote : Option LockfileState
  pub base : Option LockfileState

pub record SyncStats : Type 0 where
  pub packages_unchanged : ℕ
  pub packages_added : ℕ
  pub packages_removed : ℕ
  pub packages_updated : ℕ
  pub conflicts_auto_resolved : ℕ
  pub conflicts_manual : ℤ

abbrev pub zero_stats : SyncStats
zero_stats = record {
  packages_unchanged = 0;
  packages_added = 0;
  packages_removed = 0;
  packages_updated = 0;
  conflicts_auto_resolved = 0;
  conflicts_manual = pos 0;
}

pub record SyncResult : Type 0 where
  pub merged : LockfileState
  pub resolutions : List Resolution
  pub manual_conflicts : List LockConflict
  pub stats : SyncStats

pub data SyncError : Type 0 where
  no_local_state no_remote_state : SyncError
  conflict_not_found : String → SyncError

pub data Result (A : Type 0) : Type 0 where
  ok : A → Result A
  err : SyncError → Result A

unfoldable pub has_manual_conflicts : SyncResult → Bool
has_manual_conflicts r = ltb 0 (length r.manual_conflicts)

unfoldable pub is_clean_result : SyncResult → Bool
unfolding has_manual_conflicts
is_clean_result r = not (has_manual_conflicts r)

unfoldable pub state_is_empty : Option LockfileState → Bool
state_is_empty none = true
state_is_empty (some s) = length s.packages == 0
