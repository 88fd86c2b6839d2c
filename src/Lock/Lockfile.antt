-- ===== src/Lock/Lockfile.antt =====
-- internal/domain/lock/lockfile.go: the lockfile, which is shared by pointer: an operation that
-- changes it returns the new state with its reply. The mode is Go's string type: a text, with the
-- named values of config.
pub mod Refine
pub mod Encoding
use preflight.Sync.VersionVector.{new_version_vector}
use preflight.Base.{
  String, Bool, List, Option, [], false, if◌then◌else◌, length, none, not, some, str_eq, true, ℕ,
  ◌==◌, ◌∷◌, map,
}
use preflight.GoMap.{put, has, lookup, remove}
use preflight.Lock.Machine.{MachineInfo}
use preflight.Lock.Package.{
  PackageLock, has_attestation, key_of, package_is_zero, package_key, AttestationRef,
}
use preflight.Sync.Metadata.{SyncMetadata, new_sync_metadata, record_activity}

pub record Lockfile : Type 0 where
  pub version : ℕ
  pub mode : String
  pub machine_info : MachineInfo
  pub packages : List (String × PackageLock)
  pub sync_metadata : SyncMetadata

pub data LockError : Type 0 where
  package_exists package_not_found : String → LockError
  invalid_package_lock : LockError

-- `SyncMetadata{}`
abbrev pub zero_metadata : SyncMetadata
zero_metadata = record { vector = new_version_vector; lineage = []; initialized = false }

unfoldable pub new_lockfile : String → MachineInfo → Lockfile
unfolding new_version_vector
new_lockfile mode info = record {
  version = 1;
  mode = mode;
  machine_info = info;
  packages = [];
  sync_metadata = zero_metadata;
}

unfoldable pub new_lockfile_v2 : String → MachineInfo → Lockfile
new_lockfile_v2 mode info = record {
  version = 2;
  mode = mode;
  machine_info = info;
  packages = [];
  sync_metadata = new_sync_metadata new_version_vector;
}

unfoldable pub with_sync_metadata : Lockfile → SyncMetadata → Lockfile
with_sync_metadata l meta = record l { sync_metadata = meta }

unfoldable pub record_change : Lockfile → String → String → ℕ → Lockfile
record_change l machine_id hostname now = record l {
  sync_metadata = record_activity l.sync_metadata machine_id hostname now;
}

unfoldable pub add_package : Lockfile → PackageLock → Lockfile × Option LockError
add_package l p =
    if package_is_zero p
    then (l, some invalid_package_lock)
    else if has (package_key p) l.packages
    then (l, some (package_exists (package_key p)))
    else (record l { packages = put (package_key p) p l.packages }, none)

unfoldable pub update_package : Lockfile → PackageLock → Lockfile × Option LockError
update_package l p =
    if package_is_zero p
    then (l, some invalid_package_lock)
    else if not (has (package_key p) l.packages)
    then (l, some (package_not_found (package_key p)))
    else (record l { packages = put (package_key p) p l.packages }, none)

unfoldable pub set_package : Lockfile → PackageLock → Lockfile × Option LockError
set_package l p =
    if package_is_zero p
    then (l, some invalid_package_lock)
    else (record l { packages = put (package_key p) p l.packages }, none)

unfoldable pub remove_package : Lockfile → String → String → Lockfile × Bool
remove_package l provider name =
    let key = key_of provider name in
    if not (has key l.packages)
    then (l, false)
    else (record l { packages = remove key l.packages }, true)

unfoldable pub get_package : Lockfile → String → String → Option PackageLock
get_package l provider name = lookup (key_of provider name) l.packages

unfoldable pub has_package : Lockfile → String → String → Bool
has_package l provider name = has (key_of provider name) l.packages

unfoldable pub package_count : Lockfile → ℕ
package_count l = length l.packages

-- The values that pass a test, in the order in which the map is ranged over.
unfoldable pub values_where : (PackageLock → Bool) → List (String × PackageLock) → List PackageLock
values_where test [] = []
values_where test ((k, p) ∷ m) = let rest = values_where test m in if test p then p ∷ rest else rest

unfoldable pub packages_by_provider : Lockfile → String → List PackageLock
unfolding values_where
packages_by_provider l provider = values_where (λ p. str_eq p.provider provider) l.packages

unfoldable pub packages_with_attestations : Lockfile → List PackageLock
unfolding values_where
packages_with_attestations l = values_where has_attestation l.packages

unfoldable pub packages_without_attestations : Lockfile → List PackageLock
unfolding values_where
packages_without_attestations l = values_where (λ p. not (has_attestation p)) l.packages

-- The packages are copied to a lockfile of `NewLockfile`.
unfoldable pub with_mode : Lockfile → String → Lockfile
unfolding new_lockfile
with_mode l mode = record (new_lockfile mode l.machine_info) { packages = l.packages }

unfoldable pub with_machine_info : Lockfile → MachineInfo → Lockfile
unfolding new_lockfile
with_machine_info l info = record (new_lockfile l.mode info) { packages = l.packages }

unfoldable pub is_empty : Lockfile → Bool
is_empty l = length l.packages == 0

unfoldable pub clear : Lockfile → Lockfile
clear l = record l { packages = [] }

pub record AttestationStatus : Type 0 where
  pub key : String
  pub attested : Bool
  pub bundle_uri : String
  pub digest : String
  pub predicate_type : String

abbrev pub attestation_status : PackageLock → Option AttestationRef → AttestationStatus
attestation_status p none = record {
  key = package_key p;
  attested = has_attestation p;
  bundle_uri = "";
  digest = "";
  predicate_type = "";
}
attestation_status p (some a) = record {
  key = package_key p;
  attested = has_attestation p;
  bundle_uri = a.bundle_uri;
  digest = a.digest;
  predicate_type = a.predicate_type;
}

unfoldable pub attestation_summary : Lockfile → List AttestationStatus
attestation_summary l =
    map (λ (e : String × PackageLock). attestation_status e.1 e.1.attestation_ref) l.packages
