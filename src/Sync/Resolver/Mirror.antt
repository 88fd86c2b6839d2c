-- ===== src/Sync/Resolver/Mirror.antt =====
-- The detector and the resolver on the two sides of a synchronisation.
use preflight.Base.{Bool, Option, String, arith, eq_iff, none, refl, some, str_eq, ◌≡◌}
use preflight.GoMap.{has, is_some}
use preflight.Sync.VersionVector.{CausalRelation, equal, before, after, concurrent}
use preflight.Sync.VersionVector.Order.{flip, compare-flip}
use preflight.Sync.Conflict.{
  PackageLockInfo, ConflictType, LockConflict, both_have_provenance, both_modified, local_only,
  new_lock_conflict, remote_only, vectors_of, version_mismatch,
}
use preflight.Sync.Detector.{
  conflict_type_of, detect_conflict, detect_version_conflict, or_zero_info,
}
use preflight.Sync.Resolver.{
  Resolution, auto_by_type, auto_by_vector, by_timestamp, new_resolution, newest_by_vector,
  resolve_auto, resolve_newest, resolve_version_mismatch_auto,
}

-- A conflict as the other machine sees it.
abbrev pub mirror_type : ConflictType → ConflictType
mirror_type version_mismatch = version_mismatch
mirror_type local_only = remote_only
mirror_type remote_only = local_only
mirror_type both_modified = both_modified

abbrev pub mirror : LockConflict → LockConflict
mirror c = record c {
  conflict_type = mirror_type c.conflict_type;
  local = c.remote;
  remote = c.local;
}

vectors_of-flip : (l r : PackageLockInfo) → vectors_of r l ≡ flip (vectors_of l r)
unfolding vectors_of
vectors_of-flip l r = compare-flip l.provenance.vector_at_change r.provenance.vector_at_change

conflict_type_of-flip :
    (c : CausalRelation) → conflict_type_of (flip c) ≡ mirror_type (conflict_type_of c)
unfolding conflict_type_of
conflict_type_of-flip equal = refl
conflict_type_of-flip before = refl
conflict_type_of-flip after = refl
conflict_type_of-flip concurrent = refl

pub str_eq_comm : (s t : String) → str_eq s t ≡ str_eq t s
str_eq_comm s t = ground (arith, eq_iff s t, eq_iff t s)

version_conflict-mirror :
    (k : String) (l r b : PackageLockInfo) (has : Bool)
    → detect_version_conflict k r l b has ≡ mirror (detect_version_conflict k l r b has)
unfolding detect_version_conflict new_lock_conflict
version_conflict-mirror k l r b has =
    ground (arith, vectors_of-flip l r, conflict_type_of-flip (vectors_of l r))

pub detect-mirror :
    (k : String) (l r b : Option PackageLockInfo)
    → detect_conflict k r l b ≡ mirror (detect_conflict k l r b)
unfolding detect_conflict new_lock_conflict
detect-mirror k none none b = refl
detect-mirror k (some l) none none = refl
detect-mirror k (some l) none (some b) = refl
detect-mirror k none (some r) none = refl
detect-mirror k none (some r) (some b) = refl
detect-mirror k (some l) (some r) b = ground (
  arith,
  str_eq_comm l.version r.version,
  version_conflict-mirror k l r (or_zero_info b) (is_some b),
)

-- The package that a resolution chooses.
abbrev pub chosen : Option Resolution → Option PackageLockInfo
chosen none = none
chosen (some r) = some r.result

by_timestamp-mirror :
    (c : LockConflict) (a b a' b' : String)
    → chosen (by_timestamp (mirror c) a b) ≡ chosen (by_timestamp c a' b')
unfolding by_timestamp new_resolution
by_timestamp-mirror c a b a' b' = ground arith

auto_by_vector-mirror :
    (c : LockConflict) (r : CausalRelation)
    → chosen (auto_by_vector (mirror c) (flip r)) ≡ chosen (auto_by_vector c r)
unfolding auto_by_vector new_resolution
auto_by_vector-mirror c equal = refl
auto_by_vector-mirror c before = refl
auto_by_vector-mirror c after = refl
auto_by_vector-mirror c concurrent = refl

newest_by_vector-mirror :
    (c : LockConflict) (r : CausalRelation)
    → chosen (newest_by_vector (mirror c) (flip r)) ≡ chosen (newest_by_vector c r)
unfolding newest_by_vector new_resolution
newest_by_vector-mirror c equal = by_timestamp-mirror c _ _ _ _
newest_by_vector-mirror c before = refl
newest_by_vector-mirror c after = refl
newest_by_vector-mirror c concurrent = refl

both_have_provenance-mirror :
    (l r : PackageLockInfo) → both_have_provenance r l ≡ both_have_provenance l r
unfolding both_have_provenance
both_have_provenance-mirror l r = ground arith

mismatch-mirror :
    (c : LockConflict)
    → chosen (resolve_version_mismatch_auto (mirror c)) ≡ chosen (resolve_version_mismatch_auto c)
unfolding resolve_version_mismatch_auto
mismatch-mirror c = ground (
  arith,
  vectors_of-flip c.local c.remote,
  both_have_provenance-mirror c.local c.remote,
  auto_by_vector-mirror c (vectors_of c.local c.remote),
  by_timestamp-mirror c "auto: local has later timestamp" "auto: remote has later timestamp"
      "auto: local has later timestamp" "auto: remote has later timestamp",
)

pub newest-mirror :
    (c : LockConflict) → chosen (resolve_newest (mirror c)) ≡ chosen (resolve_newest c)
unfolding resolve_newest
newest-mirror c = ground (
  arith,
  vectors_of-flip c.local c.remote,
  both_have_provenance-mirror c.local c.remote,
  newest_by_vector-mirror c (vectors_of c.local c.remote),
  by_timestamp-mirror c "newest: local has later timestamp" "newest: remote has later timestamp"
      "newest: local has later timestamp" "newest: remote has later timestamp",
)

pub auto-mirror : (c : LockConflict) → chosen (resolve_auto (mirror c)) ≡ chosen (resolve_auto c)
unfolding resolve_auto new_resolution
auto-mirror c = go c.conflict_type
  where
    go :
        (t : ConflictType)
        → chosen (auto_by_type (mirror_type t) (mirror c)) ≡ chosen (auto_by_type t c)
    go version_mismatch = mismatch-mirror c
    go local_only = refl
    go remote_only = refl
    go both_modified = ground (arith, mismatch-mirror c)
