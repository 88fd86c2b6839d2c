-- ===== src/Sync/Merger/Commit.antt =====
-- What `PrepareForCommit` keeps.
use preflight.Base.{
  String, Option, [], ap, arith, eq_iff, false, none, refl, some, ℕ, ◌+◌, ◌<◌, ◌^◌, ◌∙◌, ◌∷◌, ◌≡◌,
  Bool-cases, inl, inr, str_eq, subst,
}
use preflight.GoMap.{lookup, has, IsMap}
use preflight.GoMap.Laws.{lookup-put}
use preflight.Sync.VersionVector.{compare, after, get}
use preflight.Sync.VersionVector.Merge.{compare-increment}
use preflight.Sync.Conflict.{PackageLockInfo}
use preflight.Sync.Detector.{Packages}
use preflight.Sync.Metadata.{SyncMetadata, record_activity, add_lineage}
use preflight.Sync.State.{LockfileState, add_package, new_lockfile_state_with_metadata}
use preflight.Sync.Merger.Changes.{absent_lem}
use preflight.Sync.Merger.{LockfileMerger, copy_packages, prepare_for_commit}

abbrev or_of : Option PackageLockInfo → Option PackageLockInfo → Option PackageLockInfo
or_of none o = o
or_of (some x) o = some x

copy_packages_lem :
    (k : String) (m : Packages) (s : LockfileState)
    → IsMap m
    → (lookup k (copy_packages m s).packages ≡ or_of (lookup k m) (lookup k s.packages))
      × ((copy_packages m s).metadata ≡ s.metadata)
unfolding copy_packages add_package lookup
copy_packages_lem k [] s h = (refl, refl)
copy_packages_lem k ((key, info) ∷ m) s (fresh, h) =
    let (entry, meta) = copy_packages_lem k m (add_package key info s) h in
    let put_k = lookup-put k key info s.packages in
    (
      elim (Bool-cases (str_eq key k)) [
        | inl same ↦
            let gone = subst (λ j. has j m ≡ false) ((eq_iff key k).0 same) fresh in
            entry ∙ rw (absent_lem k m gone, put_k, same) refl
        | inr other ↦ entry ∙ rw (put_k, other) refl
      ],
      meta,
    )

or_of-none : (o : Option PackageLockInfo) → or_of o none ≡ o
or_of-none none = refl
or_of-none (some x) = refl

incremented :
    (meta : SyncMetadata) (id hostname : String) (now : ℕ)
    → get meta.vector id + 1 < 2 ^ 64
    → compare (record_activity meta id hostname now).vector meta.vector ≡ after
unfolding record_activity add_lineage
incremented meta id hostname now room =
    elim (compare-increment meta.vector id (omega (arith, room))) [
      | inl (_, later) ↦ later
      | inr (full, _) ↦ absurd (omega (arith, room, full))
    ]

-- If a state has each key once, the state that is prepared for a commit has the same entry under
-- every key; and its version vector is strictly after the old one, provided that the machine's
-- clock does not wrap.
pub prepare_for_commit_lem :
    (m : LockfileMerger) (s : LockfileState) (now : ℕ) (k : String)
    → IsMap s.packages
    → get s.metadata.vector m.machine_id + 1 < 2 ^ 64
    → (lookup k (prepare_for_commit m s now).packages ≡ lookup k s.packages)
      × (compare (prepare_for_commit m s now).metadata.vector s.metadata.vector ≡ after)
unfolding prepare_for_commit new_lockfile_state_with_metadata lookup
prepare_for_commit_lem m s now k h room =
    let meta = record_activity s.metadata m.machine_id m.hostname now in
    let (entry, same) = copy_packages_lem k s.packages (new_lockfile_state_with_metadata meta) h in
    (
      entry ∙ or_of-none (lookup k s.packages),
      ap (λ (n : SyncMetadata). compare n.vector s.metadata.vector) same
          ∙ incremented s.metadata m.machine_id m.hostname now room,
    )
