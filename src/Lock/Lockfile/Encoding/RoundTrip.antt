-- ===== src/Lock/Lockfile/Encoding/RoundTrip.antt =====
-- A lockfile that is written and read again.
use mathlib.Core.List.{append-nil, append_assoc}
use preflight.Base.{
  String, returns, All, List, Option, [], contains_char, false, none, some, true, ℕ, ◌++◌, ◌∷◌, ◌≡◌,
  ◌⊎◌, ap, arith, refl, str_eq, subst, sym, inl, inr, if◌then◌else◌, leb, not, ◌&&◌,
}
use preflight.GoMap.{IsMap, has}
use preflight.GoMap.Rebuild.{IsFresh, IsFresh-snoc, put-fresh, IsFresh-nil}
use preflight.Sync.Metadata.{
  SyncMetadata, MachineLineage, add_lineage, metadata_is_zero, new_sync_metadata,
}
use preflight.Sync.VersionVector.{VersionVector, new_version_vector}
use preflight.Lock.Integrity.{Integrity, show_integrity}
use preflight.Lock.Integrity.Laws.{IsIntegrity, parse-show_integrity}
use preflight.Lock.Package.{
  PackageLock, new_package_lock, package_key, parse_package_key, package_is_zero,
}
use preflight.Lock.Package.Laws.{parse-key_of}
use preflight.Lock.Machine.{MachineInfo, new_machine_info}
use preflight.Lock.Lockfile.{
  Lockfile, add_package, zero_metadata, new_lockfile, new_lockfile_v2, with_sync_metadata,
}
use preflight.Lock.Lockfile.Encoding.{
  lineage_to_dto, load_lineage, load_package, after_add_package, load_packages, load_sync,
  lockfile_from_dto, lockfile_to_dto, new_lockfile_of, packages_to_dto, sync_to_dto,
}

-- The attestation of a package has no place in the file.
abbrev pub bare : PackageLock → PackageLock
bare p = record p { attestation_ref = none }

abbrev pub bare_entries : List (String × PackageLock) → List (String × PackageLock)
bare_entries [] = []
bare_entries ((k, p) ∷ m) = (k, bare p) ∷ bare_entries m

-- The metadata of a lockfile of the second version that has none are new ones when it is read.
abbrev pub read_metadata : ℕ → SyncMetadata → SyncMetadata
read_metadata version s =
    if leb 2 version && not s.initialized then new_sync_metadata new_version_vector else s

abbrev pub as_read : Lockfile → Lockfile
as_read l = record l {
  packages = bare_entries l.packages;
  sync_metadata = read_metadata l.version l.sync_metadata;
}

filled :
    (provider name version : String) (i : Integrity) (t : ℕ) (p : PackageLock)
    → new_package_lock provider name version i t ≡ returns p
    → (str_eq provider "" ≡ false) × (str_eq name "" ≡ false)
unfolding new_package_lock
filled provider name version i t p e = ground arith

add_lem :
    (p : PackageLock) (l : Lockfile)
    → str_eq p.provider "" ≡ false
    → has (package_key p) l.packages ≡ false
    → after_add_package (add_package l p)
      ≡ returns (record l { packages = l.packages ++ (package_key p, p) ∷ [] })
unfolding add_package package_is_zero
add_lem p l named fresh = rw (named, fresh, put-fresh (package_key p) p l.packages fresh) refl

with_lem :
    (version : ℕ) (mode : String) (info : MachineInfo) (s : SyncMetadata)
    → (version ≡ 1) ⊎ (version ≡ 2)
    → with_sync_metadata (new_lockfile_of version mode info) s ≡ record {
      version = version;
      mode = mode;
      machine_info = info;
      packages = [];
      sync_metadata = s;
    }
unfolding with_sync_metadata new_lockfile_of new_lockfile new_lockfile_v2
with_lem version mode info s (inl e) = rw e refl
with_lem version mode info s (inr e) = rw e refl

module _ (format : ℕ → String) (parse : String → Option ℕ) where
  -- A time that the layout keeps: one of whole seconds.
  abbrev pub IsKept : ℕ → Type 0
  IsKept t = parse (format t) ≡ some t

  -- A package as `NewPackageLock` makes it, from a provider with no colon, under its own key.
  abbrev pub IsStored : String × PackageLock → Type 0
  IsStored (k, p) =
      (k ≡ package_key p)
      × (contains_char b':' p.provider ≡ false)
      × IsIntegrity p.integrity
      × IsKept p.installed_at
      × (new_package_lock p.provider p.name p.version p.integrity p.installed_at ≡ returns (bare p))

  abbrev pub IsSeen : String × MachineLineage → Type 0
  IsSeen (k, m) = (k ≡ m.machine_id) × IsKept m.last_seen

  -- The version is 1 or 2, and the metadata are initialised or the zero value.
  abbrev pub HasVersion : Lockfile → Type 0
  HasVersion l =
      ((l.version ≡ 1) ⊎ (l.version ≡ 2))
      × ((l.sync_metadata.initialized ≡ true) ⊎ (l.sync_metadata ≡ zero_metadata))

  load_lineage_lem :
      (m a : List (String × MachineLineage)) (v : VersionVector)
      → All IsSeen m
      → IsMap m
      → IsFresh m a
      → load_lineage parse
          (lineage_to_dto format m)
          (record { vector = v; lineage = a; initialized = true })
        ≡ returns (record { vector = v; lineage = a ++ m; initialized = true })
  unfolding load_lineage lineage_to_dto add_lineage
  load_lineage_lem [] a v seen unique fresh = rw (append-nil a) refl
  load_lineage_lem ((k, l) ∷ m) a v seen unique fresh =
      let same : record { machine_id = k; hostname = l.hostname; last_seen = l.last_seen } ≡ l =
        ap (λ i. record l { machine_id = i }) seen.0.0 in
      rw
        (
          seen.0.1,
          put-fresh k _ a fresh.0,
          same,
          load_lineage_lem m (a ++ (k, l) ∷ []) v seen.1 unique.1
              (IsFresh-snoc k l m a fresh.1 unique.0),
          append_assoc,
        )
        refl

  load_package_lem :
      (k : String) (p : PackageLock) (l : Lockfile)
      → IsStored (k, p)
      → has k l.packages ≡ false
      → load_package parse k
          (record {
            version = p.version;
            integrity = show_integrity p.integrity;
            installed_at = format p.installed_at;
          })
          l
        ≡ returns (record l { packages = l.packages ++ (k, bare p) ∷ [] })
  unfolding load_package add_package
  load_package_lem k p l (own, plain, checked, kept, made) fresh =
      let (provider, name) =
        filled p.provider p.name p.version p.integrity p.installed_at (bare p) made in
      let key : parse_package_key k ≡ returns (p.provider, p.name) =
        subst (λ i. parse_package_key i ≡ returns (p.provider, p.name)) (sym own)
          (parse-key_of p.provider p.name plain provider name) in
      rw (key, parse-show_integrity p.integrity checked, kept, made)
        (subst
          (λ j.
            after_add_package (add_package l (bare p))
            ≡ returns (record l { packages = l.packages ++ (j, bare p) ∷ [] }))
          (sym own) (add_lem (bare p) l provider (subst (λ j. has j l.packages ≡ false) own fresh)))

  load_packages_lem :
      (m a : List (String × PackageLock)) (l : Lockfile)
      → All IsStored m
      → IsMap m
      → IsFresh m a
      → load_packages parse (packages_to_dto format m) (record l { packages = a })
        ≡ returns (record l { packages = a ++ bare_entries m })
  unfolding load_packages packages_to_dto
  load_packages_lem [] a l stored unique fresh = rw (append-nil a) refl
  load_packages_lem ((k, p) ∷ m) a l stored unique fresh =
      rw (load_package_lem k p (record l { packages = a }) stored.0 fresh.0) (
        rw (append_assoc a ((k, bare p) ∷ []) (bare_entries m)) at (
          load_packages_lem m (a ++ (k, bare p) ∷ []) l stored.1 unique.1
            (IsFresh-snoc k (bare p) m a fresh.1 unique.0)))

  load_sync_lem :
      (l : Lockfile)
      → HasVersion l
      → All IsSeen l.sync_metadata.lineage
      → IsMap l.sync_metadata.lineage
      → load_sync parse
          (sync_to_dto format l.sync_metadata)
          (new_lockfile_of l.version l.mode l.machine_info)
        ≡ returns
            (record l { packages = []; sync_metadata = read_metadata l.version l.sync_metadata })
  unfolding load_sync sync_to_dto metadata_is_zero new_lockfile_of new_lockfile new_lockfile_v2
      new_sync_metadata
  load_sync_lem l (v, inl there) seen unique =
      rw
        (
          there,
          load_lineage_lem l.sync_metadata.lineage [] l.sync_metadata.vector seen unique
              (IsFresh-nil MachineLineage l.sync_metadata.lineage),
          with_lem l.version l.mode l.machine_info _ v,
        )
        (ground arith)
  load_sync_lem l (inl v, inr none_there) seen unique = rw (none_there, v) refl
  load_sync_lem l (inr v, inr none_there) seen unique = rw (none_there, v) refl

  -- What the layout and the checks of reading keep of a lockfile.
  abbrev pub IsStorable : Lockfile → Type 0
  IsStorable l =
      HasVersion l
      × (new_machine_info l.machine_info.os l.machine_info.arch l.machine_info.hostname
            l.machine_info.snapshot
          ≡ returns l.machine_info)
      × IsKept l.machine_info.snapshot
      × All IsSeen l.sync_metadata.lineage
      × IsMap l.sync_metadata.lineage
      × All IsStored l.packages
      × IsMap l.packages

  -- A lockfile of version 1 or 2, whose sync metadata are initialised or the zero value, whose
  -- machine and packages pass the checks of their constructors, whose providers have no colon in
  -- their names, whose maps have each key once and each entry under its own, and whose times the
  -- layout keeps, is read again as it was written, except that every package has lost its
  -- attestation, and that in version 2 zero metadata have become new, initialised ones.
  pub lockfile_from_dto-lockfile_to_dto :
      (l : Lockfile)
      → IsStorable l
      → lockfile_from_dto parse (lockfile_to_dto format l) ≡ returns (as_read l)
  unfolding lockfile_from_dto lockfile_to_dto
  lockfile_from_dto-lockfile_to_dto l (version, machine, kept, seen, each, stored, unique) =
      rw (kept, machine, load_sync_lem l version seen each)
        (load_packages_lem l.packages []
          (record l { sync_metadata = read_metadata l.version l.sync_metadata }) stored unique
          (IsFresh-nil PackageLock l.packages))
