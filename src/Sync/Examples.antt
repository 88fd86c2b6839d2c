-- ===== src/Sync/Examples.antt =====
-- Two laptops and their lockfiles: the theorems of internal/domain/sync at concrete states.
use preflight.Base.{
  [], arith, refl, true, ◌+◌, ◌<◌, ◌^◌, ◌↔◌, ◌∷◌, ◌≡◌, ◌⊎◌, String, decrement, if◌then◌else◌,
  member, none, not, str_eq, ◌&&◌, ◌++◌,
}
use preflight.GoMap.{lookup, add_keys, keys, put, is_some}
use preflight.Sync.VersionVector.{
  VersionVector, get, merge, increment, compare, dominates, after, before, concurrent, all_keys,
  classify, merge_entries, scan,
}
use preflight.Sync.VersionVector.Order.{compare_iff, Relates}
use preflight.Sync.Conflict.{
  info_is_zero, LockConflict, PackageLockInfo, both_modified, conflict_is_zero, is_resolvable,
  new_lock_conflict, zero_info,
}
use preflight.Sync.Detector.{
  detect, DetectInput, all_conflicts, conflict_at, detect_conflict, detect_key, detect_keys,
  detect_version_conflict, package_keys,
}
use preflight.Sync.Detector.Keys.{is_key, is_common, is_conflicting}
use preflight.Sync.Detector.Partition.{detect_partition}
use preflight.Sync.Resolver.{
  resolve_all, auto, choose_remote, resolve, resolve_manually, resolve_rounds,
}
use preflight.Sync.Resolver.Rounds.{is_settled, settled_at}
use preflight.Sync.State.{LockfileState, SyncEngine, SyncResult}
use preflight.Sync.Building.{build_merged_state}
use preflight.Sync.Provenance.{provenance_is_zero}
use preflight.Sync.Engine.{
  sync_states, base_packages, detect_input, merged_metadata, resolve_manual_conflict,
}
use preflight.Sync.Engine.Pointwise.{sync_pointwise, merged_entry, resolve_all_keys}
use preflight.Sync.Engine.Converge.{sync_converges, version_of}
use preflight.Sync.Engine.Manual.{manual_entry, resolve_manual_conflict_lem, others}
use preflight.Sync.Engine.Vector.{merged_vector, sync_vector-after}
use preflight.Sync.VersionVector.Merge.{compare-increment, merge_join}

abbrev pub v : VersionVector
v = record { entries = ("work", 3) ∷ ("home", 1) ∷ [] }

abbrev pub w : VersionVector
w = record { entries = ("home", 2) ∷ [] }

abbrev v0 : VersionVector
v0 = record { entries = [] }

abbrev v1 : VersionVector
v1 = record { entries = ("home", 1) ∷ [] }

abbrev v2 : VersionVector
v2 = record { entries = ("work", 1) ∷ ("home", 1) ∷ [] }

-- The two vectors are concurrent.
v_w : compare v w ≡ concurrent
unfolding compare keys add_keys lookup get put
v_w = refl

compare_iff_example : (compare v w ≡ concurrent) ↔ Relates concurrent v w
compare_iff_example = compare_iff concurrent v w

merge_join_example :
    (dominates v (merge v w) ≡ true) ↔ ((dominates v v ≡ true) × (dominates v w ≡ true))
unfolding lookup
merge_join_example = merge_join v v w (refl, tt)

compare-increment_example :
    ((get v "work" + 1 < 2 ^ 64) × (compare (increment v "work") v ≡ after))
    ⊎ ((get v "work" + 1 ≡ 2 ^ 64) × (compare (increment v "work") v ≡ before))
unfolding get lookup
compare-increment_example = compare-increment v "work" (omega arith)

-- What the laptops "work" and "home" have of two packages since they last met.
abbrev info : String → String → VersionVector → PackageLockInfo
info version machine vector = record {
  version = version;
  provenance = record { modified_by = machine; vector_at_change = vector };
  modified_at = 0;
}

abbrev pub work : LockfileState
work = record {
  packages = ("brew:gh", info "2.1" "work" v) ∷ ("brew:jq", info "1.7" "work" v) ∷ [];
  metadata = record { vector = v; lineage = []; initialized = true };
}

abbrev pub home : LockfileState
home = record {
  packages = ("brew:fd", info "9.0" "home" w) ∷ ("brew:gh", info "2.2" "home" w) ∷ [];
  metadata = record { vector = w; lineage = []; initialized = true };
}

abbrev pub engine : SyncEngine
engine = record { strategy = auto; machine_id = "work"; hostname = "work.local" }

abbrev home_engine : SyncEngine
home_engine = record { strategy = auto; machine_id = "home"; hostname = "home.local" }

abbrev met : SyncResult
met = sync_states engine work home none 7

abbrev input : DetectInput
input = detect_input work home none

-- "brew:gh" is left for manual resolution, and the additions of the two sides are not.
left_over : is_key "brew:gh" met.manual_conflicts ≡ true
unfolding sync_states build_merged_state merged_metadata detect_input detect detect_keys detect_key
    conflict_at detect_conflict detect_version_conflict new_lock_conflict conflict_is_zero
    is_resolvable compare scan classify all_keys get keys add_keys lookup put all_conflicts
    resolve_all resolve_rounds resolve package_keys provenance_is_zero info_is_zero
left_over = refl

sync_pointwise_example :
    lookup "brew:fd" met.merged.packages
    ≡ merged_entry auto "brew:fd"
        (lookup "brew:fd" work.packages)
        (lookup "brew:fd" home.packages)
        (lookup "brew:fd" (base_packages none))
sync_pointwise_example = sync_pointwise engine work home none 7 "brew:fd"

sync_converges_example :
    version_of (lookup "brew:fd" met.merged.packages)
    ≡ version_of (lookup "brew:fd" (sync_states home_engine home work none 9).merged.packages)
unfolding sync_states build_merged_state merged_metadata detect_input detect detect_keys detect_key
    conflict_at detect_conflict detect_version_conflict new_lock_conflict conflict_is_zero
    is_resolvable compare scan classify all_keys get keys add_keys lookup put all_conflicts
    resolve_all resolve_rounds resolve package_keys provenance_is_zero info_is_zero
sync_converges_example =
    sync_converges engine home_engine work home none 7 9 "brew:fd" refl refl (λ e. cc) refl

sync_vector-after_example :
    (compare (merged_vector engine work home none 7) v ≡ after)
    × (compare (merged_vector engine work home none 7) w ≡ after)
unfolding lookup merge merge_entries get put
sync_vector-after_example =
    sync_vector-after engine work home none 7 (refl, tt) (omega arith) (λ e. cc)

resolve_all_keys_example :
    (is_settled "brew:gh" (resolve_all auto (all_conflicts (detect input))).0
      ≡ (is_conflicting input "brew:gh" && is_some (settled_at auto input "brew:gh")))
    × (is_key "brew:gh" (resolve_all auto (all_conflicts (detect input))).1
        ≡ (is_conflicting input "brew:gh" && not (is_some (settled_at auto input "brew:gh"))))
resolve_all_keys_example = resolve_all_keys auto input "brew:gh"

detect_partition_example :
    (is_key "brew:gh" (detect input).conflicts
      ≡ (is_conflicting input "brew:gh" && not (is_resolvable (conflict_at input "brew:gh"))))
    × (is_key "brew:gh" (detect input).auto_resolvable
        ≡ (is_conflicting input "brew:gh" && is_resolvable (conflict_at input "brew:gh")))
    × (member "brew:gh" (detect input).clean
        ≡ (not (is_conflicting input "brew:gh") && is_common input "brew:gh"))
detect_partition_example = detect_partition input "brew:gh"

abbrev gh_conflict : LockConflict
gh_conflict = conflict_at input "brew:gh"

resolve_manual_conflict_lem_example :
    let (r, error) = resolve_manual_conflict met gh_conflict choose_remote in
    (error ≡ none)
    × (r.manual_conflicts ≡ others gh_conflict.package_key met.manual_conflicts)
    × (lookup "brew:gh" r.merged.packages ≡ (
        if str_eq gh_conflict.package_key "brew:gh"
        then manual_entry gh_conflict choose_remote (lookup "brew:gh" met.merged.packages)
        else lookup "brew:gh" met.merged.packages))
    × (r.resolutions ≡ met.resolutions ++ resolve_manually gh_conflict choose_remote ∷ [])
    × ((resolve_manually gh_conflict choose_remote).result ≡ gh_conflict.remote)
    × (r.stats.conflicts_manual ≡ decrement met.stats.conflicts_manual)
unfolding sync_states build_merged_state merged_metadata detect_input detect detect_keys detect_key
    conflict_at detect_conflict detect_version_conflict new_lock_conflict conflict_is_zero
    is_resolvable compare scan classify all_keys get keys add_keys lookup put all_conflicts
    resolve_all resolve_rounds resolve package_keys provenance_is_zero info_is_zero
resolve_manual_conflict_lem_example =
    resolve_manual_conflict_lem met gh_conflict choose_remote "brew:gh" refl

abbrev stale : LockConflict
stale =
    new_lock_conflict "brew:rg" both_modified (info "14" "work" v) (info "13" "home" w) zero_info
