-- ===== src/Lock/Lockfile/Encoding.antt =====
-- internal/domain/lock/repository.go: the lockfile in the form that is written to a file. The
-- layout of a time, `Format(time.RFC3339)`, and its reading are parameters; so is none of the YAML.
pub mod RoundTrip
use preflight.Base.{
  String, returns, Fallible, List, Option, [], fails, if◌then◌else◌, leb, map_error, none, some, ℕ,
  ◌>>=◌, ◌∷◌,
}
use preflight.GoMap.{put}
use preflight.Lock.Integrity.{Integrity, IntegrityError, parse_integrity, show_integrity}
use preflight.Lock.Package.{
  PackageLock, KeyError, PackageError, new_package_lock, parse_package_key,
}
use preflight.Lock.Machine.{MachineInfo, MachineError, new_machine_info}
use preflight.Lock.Lockfile.{
  Lockfile, LockError, add_package, new_lockfile, new_lockfile_v2, with_sync_metadata,
}
use preflight.Sync.Metadata.{
  SyncMetadata, MachineLineage, add_lineage, metadata_is_zero, new_sync_metadata,
}
use preflight.Sync.VersionVector.{VersionVector, after}

pub record LineageDto : Type 0 where
  pub hostname : String
  pub last_seen : String

pub record SyncMetadataDto : Type 0 where
  pub vector : List (String × ℕ)
  pub lineage : List (String × LineageDto)

pub record MachineInfoDto : Type 0 where
  pub os : String
  pub arch : String
  pub hostname : String
  pub snapshot : String

pub record PackageDto : Type 0 where
  pub version : String
  pub integrity : String
  pub installed_at : String

pub record LockfileDto : Type 0 where
  pub version : ℕ
  pub mode : String
  pub machine_info : MachineInfoDto
  pub sync : Option SyncMetadataDto
  pub packages : List (String × PackageDto)

pub data LoadError : Type 0 where
  bad_snapshot : LoadError
  bad_machine : MachineError → LoadError
  bad_last_seen : String → LoadError
  bad_key : KeyError → LoadError
  bad_integrity : IntegrityError → LoadError
  bad_installed_at : String → LoadError
  bad_entry : String → PackageError → LoadError
  bad_addition : LockError → LoadError

-- `time.Parse(...)` with its error.
abbrev pub time_or : LoadError → Option ℕ → Fallible LoadError ℕ
time_or e none = fails e
time_or e (some t) = returns t

abbrev pub after_add_package : Lockfile × Option LockError → Fallible LoadError Lockfile
after_add_package (l, none) = returns l
after_add_package (l, some e) = fails (bad_addition e)

module _ (format : ℕ → String) where
  unfoldable pub lineage_to_dto : List (String × MachineLineage) → List (String × LineageDto)
  lineage_to_dto [] = []
  lineage_to_dto ((k, m) ∷ lineage) =
      (k, record { hostname = m.hostname; last_seen = format m.last_seen }) ∷ lineage_to_dto lineage

  unfoldable pub packages_to_dto : List (String × PackageLock) → List (String × PackageDto)
  packages_to_dto [] = []
  packages_to_dto ((k, p) ∷ m) =
      (
        k,
        record {
          version = p.version;
          integrity = show_integrity p.integrity;
          installed_at = format p.installed_at;
        },
      )
      ∷ packages_to_dto m

  unfoldable pub sync_to_dto : SyncMetadata → Option SyncMetadataDto
  unfolding lineage_to_dto
  sync_to_dto s =
      if metadata_is_zero s
      then none
      else some (record { vector = s.vector.entries; lineage = lineage_to_dto s.lineage })

  unfoldable pub lockfile_to_dto : Lockfile → LockfileDto
  unfolding sync_to_dto packages_to_dto
  lockfile_to_dto l = record {
    version = l.version;
    mode = l.mode;
    machine_info = record {
      os = l.machine_info.os;
      arch = l.machine_info.arch;
      hostname = l.machine_info.hostname;
      snapshot = format l.machine_info.snapshot;
    };
    sync = sync_to_dto l.sync_metadata;
    packages = packages_to_dto l.packages;
  }

unfoldable pub new_lockfile_of : ℕ → String → MachineInfo → Lockfile
new_lockfile_of version mode info =
    if leb 2 version then new_lockfile_v2 mode info else new_lockfile mode info

module _ (parse : String → Option ℕ) where
  unfoldable pub load_lineage :
      List (String × LineageDto) → SyncMetadata → Fallible LoadError SyncMetadata
  load_lineage [] s = returns s
  load_lineage ((k, d) ∷ lineage) s = time_or (bad_last_seen k) (parse d.last_seen) >>= λ t.
      load_lineage lineage
        (add_lineage s (record { machine_id = k; hostname = d.hostname; last_seen = t }))

  unfoldable pub load_sync : Option SyncMetadataDto → Lockfile → Fallible LoadError Lockfile
  unfolding load_lineage
  load_sync none l = returns l
  load_sync (some d) l =
      load_lineage d.lineage (new_sync_metadata (record { entries = d.vector })) >>= λ s.
      returns (with_sync_metadata l s)

  unfoldable pub load_package : String → PackageDto → Lockfile → Fallible LoadError Lockfile
  load_package k d l = map_error bad_key (parse_package_key k) >>= λ (provider, name).
      map_error bad_integrity (parse_integrity d.integrity) >>= λ i.
      time_or (bad_installed_at k) (parse d.installed_at) >>= λ t.
      map_error (bad_entry k) (new_package_lock provider name d.version i t) >>= λ p.
      after_add_package (add_package l p)

  unfoldable pub load_packages : List (String × PackageDto) → Lockfile → Fallible LoadError Lockfile
  unfolding load_package
  load_packages [] l = returns l
  load_packages ((k, d) ∷ m) l = load_package k d l >>= λ after. load_packages m after

  unfoldable pub lockfile_from_dto : LockfileDto → Fallible LoadError Lockfile
  unfolding new_lockfile_of load_sync load_packages
  lockfile_from_dto d =
      let m = d.machine_info in
      time_or bad_snapshot (parse m.snapshot) >>= λ snapshot.
      map_error bad_machine (new_machine_info m.os m.arch m.hostname snapshot) >>= λ info.
      load_sync d.sync (new_lockfile_of d.version d.mode info) >>= λ l. load_packages d.packages l
