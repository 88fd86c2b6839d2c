-- ===== src/Sync/Metadata.antt =====
-- internal/domain/sync/sync_metadata.go: the version vector of a lockfile, and the machines that
-- have written to it. A machine ID is its text; `time.Now()` is an argument.
use preflight.Base.{
  Bool, List, Option, String, [], if◌then◌else◌, ltb, none, not, some, true, ℕ, ◌∷◌,
}
use preflight.GoMap.{lookup, put}
use preflight.Sync.VersionVector.{VersionVector, merge as merge_vectors, increment}

pub record MachineLineage : Type 0 where
  pub machine_id : String
  pub hostname : String
  pub last_seen : ℕ

pub record SyncMetadata : Type 0 where
  pub vector : VersionVector
  pub lineage : List (String × MachineLineage)
  pub initialized : Bool

unfoldable pub new_sync_metadata : VersionVector → SyncMetadata
new_sync_metadata vector = record { vector = vector; lineage = []; initialized = true }

unfoldable pub metadata_is_zero : SyncMetadata → Bool
metadata_is_zero s = not s.initialized

unfoldable pub with_vector : SyncMetadata → VersionVector → SyncMetadata
with_vector s vector = record s { vector = vector; initialized = true }

unfoldable pub add_lineage : SyncMetadata → MachineLineage → SyncMetadata
add_lineage s l = record s { lineage = put l.machine_id l s.lineage; initialized = true }

unfoldable pub get_lineage : SyncMetadata → String → Option MachineLineage
get_lineage s machine_id = lookup machine_id s.lineage

unfoldable pub record_activity : SyncMetadata → String → String → ℕ → SyncMetadata
unfolding add_lineage
record_activity s machine_id hostname now =
    add_lineage
      (record { vector = increment s.vector machine_id; lineage = s.lineage; initialized = true })
      (record { machine_id = machine_id; hostname = hostname; last_seen = now })

-- The entry that stays where a machine may be known already.
unfoldable pub later_lineage : Option MachineLineage → MachineLineage → MachineLineage
later_lineage none v = v
later_lineage (some existing) v = if ltb existing.last_seen v.last_seen then v else existing

-- The second loop of `Merge`. A write of the value that is there leaves the map as it is.
unfoldable pub merge_lineage :
    List (String × MachineLineage) → List (String × MachineLineage) → List (String × MachineLineage)
unfolding later_lineage
merge_lineage merged [] = merged
merge_lineage merged ((k, v) ∷ other) =
    merge_lineage (put k (later_lineage (lookup k merged) v) merged) other

unfoldable pub merge_metadata : SyncMetadata → SyncMetadata → SyncMetadata
unfolding merge_lineage
merge_metadata s other = record {
  vector = merge_vectors s.vector other.vector;
  lineage = merge_lineage s.lineage other.lineage;
  initialized = true;
}
