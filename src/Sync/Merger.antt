-- ===== src/Sync/Merger.antt =====
-- internal/domain/sync/lockfile_merger.go: what a merge has changed, and states for a commit.
pub mod Changes
pub mod Reports
pub mod Commit
mod Examples
use preflight.Base.{
  String, List, Option, [], if◌then◌else◌, length, none, some, str_eq, ℕ, ◌++◌, ◌+◌, ◌∷◌,
}
use preflight.GoMap.{lookup, has}
use preflight.Sync.VersionVector.{VersionVector, increment}
use preflight.Sync.Provenance.{PackageProvenance}
use preflight.Sync.Conflict.{
  PackageLockInfo, LockConflict, info_equals, info_is_zero, with_modified_at, with_provenance,
  zero_info,
}
use preflight.Sync.Detector.{Packages}
use preflight.Sync.Resolver.{Resolution, ResolutionChoice, is_delete, is_skipped}
use preflight.Sync.Metadata.{SyncMetadata, record_activity}
use preflight.Sync.State.{
  LockfileState, SyncError, SyncResult, add_package, new_lockfile_state_with_metadata,
}
use preflight.Sync.Engine.{resolve_manual_conflict, base_packages}

pub record LockfileMerger : Type 0 where
  pub machine_id : String
  pub hostname : String

pub data MergeChangeType : Type 0 where
  change_added change_removed change_updated change_kept : MergeChangeType

pub record MergeChange : Type 0 where
  pub package_key : String
  pub change_type : MergeChangeType
  pub before : PackageLockInfo
  pub after : PackageLockInfo
  pub reason : String

pub record MergeStats : Type 0 where
  pub total_packages : ℕ
  pub added : ℕ
  pub removed : ℕ
  pub updated : ℕ
  pub kept : ℕ

pub record MergeResult : Type 0 where
  pub state : LockfileState
  pub changes : List MergeChange
  pub stats : MergeStats

-- A refusal of the engine, or a resolution that is not there after it was applied.
pub data MergeError : Type 0 where
  no_sync_result : MergeError
  refused : SyncError → MergeError
  resolution_not_found : String → MergeError

pub data MergeOutcome (A : Type 0) : Type 0 where
  merged : A → MergeOutcome A
  failed_merge : MergeError → MergeOutcome A

-- The `switch` that classifies a resolution, where the local side is known.
unfoldable pub change_of : String → PackageLockInfo → Resolution → MergeChange
unfolding is_delete is_skipped
change_of key local res =
    let change : MergeChangeType → PackageLockInfo → MergeChange = λ ty after. record {
      package_key = key;
      change_type = ty;
      before = local;
      after = after;
      reason = res.reason;
    } in
    if is_skipped res
    then change change_kept local
    else if is_delete res
    then change change_removed res.result
    else if info_is_zero local
    then change change_added res.result
    else change change_updated res.result

abbrev pub zero_merge_stats : MergeStats
zero_merge_stats = record { total_packages = 0; added = 0; removed = 0; updated = 0; kept = 0 }

abbrev pub count_change : MergeChangeType → MergeStats → MergeStats
count_change change_added s = record s { added = s.added + 1 }
count_change change_removed s = record s { removed = s.removed + 1 }
count_change change_updated s = record s { updated = s.updated + 1 }
count_change change_kept s = record s { kept = s.kept + 1 }

-- The loop of `Merge` over the resolutions.
unfoldable pub collect_changes :
    List Resolution → List MergeChange × MergeStats → List MergeChange × MergeStats
unfolding change_of
collect_changes [] acc = acc
collect_changes (res ∷ rest) (changes, stats) =
    let change = change_of res.conflict.package_key res.conflict.local res in
    collect_changes rest (changes ++ change ∷ [], count_change change.change_type stats)

-- `Merge`. The state of a sync result is always there.
unfoldable pub merge_result : Option SyncResult → MergeOutcome MergeResult
unfolding collect_changes
merge_result none = failed_merge no_sync_result
merge_result (some result) =
    let (changes, stats) = collect_changes result.resolutions ([], zero_merge_stats) in
    merged (record {
      state = result.merged;
      changes = changes;
      stats = record stats { total_packages = length result.merged.packages };
    })

-- The first resolution of a key.
unfoldable pub find_resolution : String → List Resolution → Option Resolution
find_resolution key [] = none
find_resolution key (res ∷ rest) =
    if str_eq res.conflict.package_key key then some res else find_resolution key rest

abbrev pub after_find : LockConflict → Option Resolution → MergeOutcome MergeChange
after_find c none = failed_merge (resolution_not_found c.package_key)
after_find c (some res) = merged (change_of c.package_key c.local res)

abbrev pub after_resolve :
    LockConflict → SyncResult × Option SyncError → SyncResult × MergeOutcome MergeChange
after_resolve c (result, some e) = (result, failed_merge (refused e))
after_resolve c (result, none) =
    (result, after_find c (find_resolution c.package_key result.resolutions))

-- `ApplyResolution`, with the result that the engine has changed.
unfoldable pub apply_and_report :
    SyncResult → LockConflict → ResolutionChoice → SyncResult × MergeOutcome MergeChange
unfolding find_resolution
apply_and_report result c choice = after_resolve c (resolve_manual_conflict result c choice)

unfoldable pub copy_packages : Packages → LockfileState → LockfileState
unfolding add_package
copy_packages [] s = s
copy_packages ((key, info) ∷ m) s = copy_packages m (add_package key info s)

unfoldable pub from_package_locks : Packages → SyncMetadata → LockfileState
unfolding copy_packages new_lockfile_state_with_metadata
from_package_locks packages metadata =
    copy_packages packages (new_lockfile_state_with_metadata metadata)

unfoldable pub update_provenance :
    LockfileMerger → PackageLockInfo → VersionVector → ℕ → PackageLockInfo
unfolding with_provenance with_modified_at
update_provenance m info vector now =
    with_modified_at
      (with_provenance info (record { modified_by = m.machine_id; vector_at_change = vector })) now

unfoldable pub increment_vector : LockfileMerger → VersionVector → VersionVector
increment_vector m vector = increment vector m.machine_id

-- `PrepareForCommit` of a state that is there.
unfoldable pub prepare_for_commit : LockfileMerger → LockfileState → ℕ → LockfileState
unfolding copy_packages new_lockfile_state_with_metadata
prepare_for_commit m state now =
    copy_packages state.packages (
      new_lockfile_state_with_metadata (record_activity state.metadata m.machine_id m.hostname now))

abbrev pub added_change : String → PackageLockInfo → MergeChange
added_change key after = record {
  package_key = key;
  change_type = change_added;
  before = zero_info;
  after = after;
  reason = "added";
}

abbrev pub updated_change : String → PackageLockInfo → PackageLockInfo → MergeChange
updated_change key before after = record {
  package_key = key;
  change_type = change_updated;
  before = before;
  after = after;
  reason = "updated";
}

abbrev pub removed_change : String → PackageLockInfo → MergeChange
removed_change key before = record {
  package_key = key;
  change_type = change_removed;
  before = before;
  after = zero_info;
  reason = "removed";
}

-- The change of a package that is there afterwards.
unfoldable pub change_to : String → Option PackageLockInfo → PackageLockInfo → Option MergeChange
change_to key none info = some (added_change key info)
change_to key (some old) info =
    if info_equals old info then none else some (updated_change key old info)

abbrev pub cons_if_some : Option MergeChange → List MergeChange → List MergeChange
cons_if_some none cs = cs
cons_if_some (some c) cs = c ∷ cs

unfoldable pub added_or_updated : Packages → Packages → List MergeChange
unfolding change_to
added_or_updated before [] = []
added_or_updated before ((key, info) ∷ after) =
    cons_if_some (change_to key (lookup key before) info) (added_or_updated before after)

unfoldable pub removed_packages : Packages → Packages → List MergeChange
removed_packages after [] = []
removed_packages after ((key, info) ∷ before) =
    let rest = removed_packages after before in
    if has key after then rest else removed_change key info ∷ rest

-- A nil state has no packages.
unfoldable pub diff : Option LockfileState → Option LockfileState → List MergeChange
unfolding added_or_updated removed_packages
diff before after =
    added_or_updated (base_packages before) (base_packages after)
    ++ removed_packages (base_packages after) (base_packages before)
