-- ===== src/Sync/Detector.antt =====
-- internal/domain/sync/conflict_detector.go: conflicts between two lockfile states.
pub mod Keys
pub mod Partition
use preflight.Base.{
  Bool, List, Option, String, [], if◌then◌else◌, length, none, some, str_eq, ℕ, ◌&&◌, ◌++◌, ◌+◌,
  ◌||◌, ◌∷◌,
}
use preflight.GoMap.{lookup, add_keys, has, is_some, keys}
use preflight.Sync.VersionVector.{equal, CausalRelation, after, before, concurrent}
use preflight.Sync.Provenance.{provenance_is_zero}
use preflight.Sync.Conflict.{
  PackageLockInfo, ConflictType, LockConflict, both_modified, conflict_is_zero, has_base,
  is_resolvable, local_only, new_lock_conflict, remote_only, vectors_of, version_mismatch,
  zero_conflict, zero_info,
}

abbrev pub Packages : Type 0
Packages = List (String × PackageLockInfo)

pub record DetectInput : Type 0 where
  pub local : Packages
  pub remote : Packages
  pub base : Packages

pub record DetectResult : Type 0 where
  pub conflicts : List LockConflict
  pub auto_resolvable : List LockConflict
  pub clean : List String

-- A value and whether it is there, as a map lookup returns them.
abbrev pub or_zero_info : Option PackageLockInfo → PackageLockInfo
or_zero_info none = zero_info
or_zero_info (some info) = info

-- The `switch` on the causal relation.
unfoldable pub conflict_type_of : CausalRelation → ConflictType
conflict_type_of equal = version_mismatch
conflict_type_of before = version_mismatch
conflict_type_of after = version_mismatch
conflict_type_of concurrent = both_modified

unfoldable pub detect_version_conflict :
    String → PackageLockInfo → PackageLockInfo → PackageLockInfo → Bool → LockConflict
unfolding conflict_type_of
detect_version_conflict key local remote base has_base =
    if provenance_is_zero local.provenance || provenance_is_zero remote.provenance
    then new_lock_conflict key version_mismatch local remote base
    else new_lock_conflict key (conflict_type_of (vectors_of local remote)) local remote base

-- The pairs of a value and a flag of the Go code are options.
unfoldable pub detect_conflict :
    String → Option PackageLockInfo → Option PackageLockInfo → Option PackageLockInfo → LockConflict
unfolding detect_version_conflict
detect_conflict key (some local) none (some base) =
    new_lock_conflict key both_modified local zero_info base
detect_conflict key (some local) none none =
    new_lock_conflict key local_only local zero_info zero_info
detect_conflict key none (some remote) (some base) =
    new_lock_conflict key both_modified zero_info remote base
detect_conflict key none (some remote) none =
    new_lock_conflict key remote_only zero_info remote zero_info
detect_conflict key none none base = zero_conflict
detect_conflict key (some local) (some remote) base =
    if str_eq local.version remote.version
    then zero_conflict
    else detect_version_conflict key local remote (or_zero_info base) (is_some base)

-- Go's loops over the set of keys may take any order; this one has the local keys first. Which
-- conflicts and entries a key has does not depend on its place.
unfoldable pub package_keys : DetectInput → List String
package_keys input = keys (add_keys input.remote (add_keys input.local []))

-- The conflict that `Detect` looks at under a key.
unfoldable pub conflict_at : DetectInput → String → LockConflict
conflict_at input key =
    detect_conflict key (lookup key input.local) (lookup key input.remote) (lookup key input.base)

-- One round of the loop.
unfoldable pub detect_key : DetectInput → String → DetectResult → DetectResult
unfolding conflict_at
detect_key input key result =
    if conflict_is_zero (conflict_at input key)
    then (if has key input.local && has key input.remote
        then record result { clean = result.clean ++ key ∷ [] }
        else result)
    else if is_resolvable (conflict_at input key)
    then record result { auto_resolvable = result.auto_resolvable ++ conflict_at input key ∷ [] }
    else record result { conflicts = result.conflicts ++ conflict_at input key ∷ [] }

unfoldable pub detect_keys : DetectInput → List String → DetectResult → DetectResult
unfolding detect_key
detect_keys input [] result = result
detect_keys input (key ∷ ks) result = detect_keys input ks (detect_key input key result)

unfoldable pub detect : DetectInput → DetectResult
unfolding detect_keys package_keys
detect input =
    detect_keys input (package_keys input)
      (record { conflicts = []; auto_resolvable = []; clean = [] })

unfoldable pub all_conflicts : DetectResult → List LockConflict
all_conflicts r = r.conflicts ++ r.auto_resolvable

unfoldable pub total_conflicts : DetectResult → ℕ
total_conflicts r = length r.conflicts + length r.auto_resolvable
