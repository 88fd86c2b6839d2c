-- ===== src/Sync/Conflict.antt =====
-- internal/domain/sync/conflict.go: the state of one package's lock, and conflicts between two.
use preflight.Base.{Bool, String, false, if◌then◌else◌, not, str_eq, true, ℕ, ◌&&◌, ◌||◌}
use preflight.Sync.VersionVector.{CausalRelation, compare, is_concurrent}
use preflight.Sync.Provenance.{
  PackageProvenance, provenance_equals, provenance_is_zero, zero_provenance,
}

pub data ConflictType : Type 0 where
  version_mismatch local_only remote_only both_modified : ConflictType

-- `modified_at` is a point in time; the zero time of Go is 0.
pub record PackageLockInfo : Type 0 where
  pub version : String
  pub provenance : PackageProvenance
  pub modified_at : ℕ

abbrev pub zero_info : PackageLockInfo
zero_info = record { version = ""; provenance = zero_provenance; modified_at = 0 }

unfoldable pub info_is_zero : PackageLockInfo → Bool
info_is_zero p = str_eq p.version "" && provenance_is_zero p.provenance

unfoldable pub info_equals : PackageLockInfo → PackageLockInfo → Bool
info_equals p other =
    if str_eq p.version other.version
    then provenance_equals p.provenance other.provenance
    else false

unfoldable pub with_provenance : PackageLockInfo → PackageProvenance → PackageLockInfo
with_provenance p prov = record p { provenance = prov }

unfoldable pub with_modified_at : PackageLockInfo → ℕ → PackageLockInfo
with_modified_at p t = record p { modified_at = t }

-- `base` is the zero value where there is no common ancestor.
pub record LockConflict : Type 0 where
  pub package_key : String
  pub conflict_type : ConflictType
  pub local : PackageLockInfo
  pub remote : PackageLockInfo
  pub base : PackageLockInfo

abbrev pub zero_conflict : LockConflict
zero_conflict = record {
  package_key = "";
  conflict_type = version_mismatch;
  local = zero_info;
  remote = zero_info;
  base = zero_info;
}

unfoldable pub new_lock_conflict :
    String → ConflictType → PackageLockInfo → PackageLockInfo → PackageLockInfo → LockConflict
new_lock_conflict key ty local remote base = record {
  package_key = key;
  conflict_type = ty;
  local = local;
  remote = remote;
  base = base;
}

unfoldable pub conflict_is_zero : LockConflict → Bool
conflict_is_zero c = str_eq c.package_key ""

unfoldable pub has_base : LockConflict → Bool
has_base c = not (info_is_zero c.base)

abbrev pub is_local_only : ConflictType → Bool
is_local_only local_only = true
is_local_only _ = false

abbrev pub is_remote_only : ConflictType → Bool
is_remote_only remote_only = true
is_remote_only _ = false

abbrev pub is_both_modified : ConflictType → Bool
is_both_modified both_modified = true
is_both_modified _ = false

abbrev pub is_version_mismatch : ConflictType → Bool
is_version_mismatch version_mismatch = true
is_version_mismatch _ = false

-- Both sides have a provenance.
unfoldable pub both_have_provenance : PackageLockInfo → PackageLockInfo → Bool
both_have_provenance local remote =
    not (provenance_is_zero local.provenance) && not (provenance_is_zero remote.provenance)

unfoldable pub vectors_of : PackageLockInfo → PackageLockInfo → CausalRelation
vectors_of local remote =
    compare local.provenance.vector_at_change remote.provenance.vector_at_change

unfoldable pub is_resolvable : LockConflict → Bool
unfolding both_have_provenance vectors_of
is_resolvable c =
    if is_local_only c.conflict_type || is_remote_only c.conflict_type
    then true
    else if is_both_modified c.conflict_type && (info_is_zero c.local || info_is_zero c.remote)
    then false
    else if is_version_mismatch c.conflict_type
        && (provenance_is_zero c.local.provenance || provenance_is_zero c.remote.provenance)
    then true
    else if both_have_provenance c.local c.remote
    then not (is_concurrent (vectors_of c.local c.remote))
    else false
