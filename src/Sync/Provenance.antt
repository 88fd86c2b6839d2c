-- ===== src/Sync/Provenance.antt =====
-- internal/domain/sync/package_provenance.go: who changed a package, and at which vector time.
use preflight.Base.{Bool, String, [], false, if◌then◌else◌, str_eq, true, ◌&&◌}
use preflight.Sync.VersionVector.{VersionVector, before, compare, equals, is_after, is_empty}

pub record PackageProvenance : Type 0 where
  pub modified_by : String
  pub vector_at_change : VersionVector

-- The zero value of the Go struct.
abbrev pub zero_provenance : PackageProvenance
zero_provenance = record { modified_by = ""; vector_at_change = record { entries = [] } }

unfoldable pub provenance_is_zero : PackageProvenance → Bool
provenance_is_zero p = str_eq p.modified_by "" && is_empty p.vector_at_change

unfoldable pub provenance_equals : PackageProvenance → PackageProvenance → Bool
provenance_equals p other =
    if str_eq p.modified_by other.modified_by
    then equals p.vector_at_change other.vector_at_change
    else false

unfoldable pub happened_before : PackageProvenance → PackageProvenance → Bool
happened_before p other = elim (compare p.vector_at_change other.vector_at_change) [
  | before ↦ true
  | _ ↦ false
]

unfoldable pub happened_after : PackageProvenance → PackageProvenance → Bool
happened_after p other = is_after (compare p.vector_at_change other.vector_at_change)
