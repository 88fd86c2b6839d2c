-- ===== src/Sync/Engine/Manual.antt =====
-- Manual resolution of a conflict that a synchronisation left.
use preflight.Base.{
  List, Option, String, [], ap, arith, decrement, false, if◌then◌else◌, none, refl, some, str_eq,
  true, ◌++◌, ◌∙◌, ◌∷◌, ◌≡◌, count,
}
use preflight.GoMap.{lookup}
use preflight.GoMap.Laws.{lookup-put, lookup-remove}
use preflight.Sync.Conflict.{PackageLockInfo, LockConflict, info_is_zero, zero_info}
use preflight.Sync.Detector.Keys.{is_key}
use preflight.Sync.Resolver.{
  Resolution, ResolutionChoice, is_delete, is_skipped, resolve_manually, choose_base, choose_local,
  choose_remote, choose_skip, new_resolution,
}
use preflight.Sync.State.{SyncResult, conflict_not_found}
use preflight.Sync.Engine.{apply_resolution, resolve_manual_conflict, without_conflict}

-- The conflicts of other keys, unchanged and in their order.
abbrev pub others : String → List LockConflict → List LockConflict
others key [] = []
others key (c ∷ cs) = if str_eq c.package_key key then others key cs else c ∷ others key cs

without_conflict_lem :
    (key : String) (cs : List LockConflict)
    → ((without_conflict key cs).0 ≡ is_key key cs) × ((without_conflict key cs).1 ≡ others key cs)
unfolding without_conflict
without_conflict_lem key [] = (refl, refl)
without_conflict_lem key (c ∷ cs) =
    let (a, b) = without_conflict_lem key cs in (ground (arith, a), ground (arith, b))

-- A conflict that is not pending is refused, and nothing changes.
resolve_manual_conflict-refused :
    (r : SyncResult) (c : LockConflict) (choice : ResolutionChoice)
    → is_key c.package_key r.manual_conflicts ≡ false
    → resolve_manual_conflict r c choice ≡ (r, some (conflict_not_found c.package_key))
unfolding resolve_manual_conflict
resolve_manual_conflict-refused r c choice h =
    rw ((without_conflict_lem c.package_key r.manual_conflicts).0, h)

-- The package that a choice takes, of the conflict's three.
abbrev pub chosen_info : LockConflict → ResolutionChoice → PackageLockInfo
chosen_info c choose_local = c.local
chosen_info c choose_remote = c.remote
chosen_info c choose_base = c.base
chosen_info c choose_skip = zero_info

-- The entry under the key after a manual choice: a skip keeps it, and a side with no package
-- removes it.
abbrev pub manual_entry :
    LockConflict → ResolutionChoice → Option PackageLockInfo → Option PackageLockInfo
manual_entry c choose_skip prior = prior
manual_entry c choice prior =
    if info_is_zero (chosen_info c choice) then none else some (chosen_info c choice)

-- What a resolution makes of an entry.
abbrev entry_after : Resolution → Option PackageLockInfo → Option PackageLockInfo
entry_after res prior =
    if is_skipped res then prior else if info_is_zero res.result then none else some res.result

resolve_manually-result :
    (c : LockConflict) (choice : ResolutionChoice)
    → (resolve_manually c choice).result ≡ chosen_info c choice
unfolding resolve_manually new_resolution
resolve_manually-result c choose_local = refl
resolve_manually-result c choose_remote = refl
resolve_manually-result c choose_base = refl
resolve_manually-result c choose_skip = refl

entry_after-resolve_manually :
    (c : LockConflict) (choice : ResolutionChoice) (prior : Option PackageLockInfo)
    → entry_after (resolve_manually c choice) prior ≡ manual_entry c choice prior
unfolding resolve_manually new_resolution is_skipped
entry_after-resolve_manually c choose_local prior = refl
entry_after-resolve_manually c choose_remote prior = refl
entry_after-resolve_manually c choose_base prior = refl
entry_after-resolve_manually c choose_skip prior = refl

apply_resolution_lem :
    (k key : String) (res : Resolution) (r : SyncResult)
    → (lookup k (apply_resolution key res r).merged.packages ≡ (
        if str_eq key k
        then entry_after res (lookup k r.merged.packages)
        else lookup k r.merged.packages))
      × ((apply_resolution key res r).manual_conflicts ≡ r.manual_conflicts)
      × ((apply_resolution key res r).resolutions ≡ r.resolutions)
      × ((apply_resolution key res r).stats.conflicts_manual ≡ r.stats.conflicts_manual)
unfolding apply_resolution is_delete is_skipped
apply_resolution_lem k key res r = (
  ground
      (arith, lookup-put k key res.result r.merged.packages, lookup-remove k key r.merged.packages),
  ground arith,
  ground arith,
  ground arith,
)

-- Resolving a pending conflict succeeds: afterwards the pending conflicts are those of other keys,
-- unchanged and in their order; the entry under the key is what was chosen, local, remote or base,
-- none if that is no package, or stays for a skip, and all other entries stay; a resolution with
-- the chosen package is recorded, and the counter of manual conflicts goes down by one.
pub resolve_manual_conflict_lem :
    (r : SyncResult) (c : LockConflict) (choice : ResolutionChoice) (k : String)
    → is_key c.package_key r.manual_conflicts ≡ true
    → let (r', error) = resolve_manual_conflict r c choice in
      (error ≡ none)
      × (r'.manual_conflicts ≡ others c.package_key r.manual_conflicts)
      × (lookup k r'.merged.packages ≡ (
          if str_eq c.package_key k
          then manual_entry c choice (lookup k r.merged.packages)
          else lookup k r.merged.packages))
      × (r'.resolutions ≡ r.resolutions ++ resolve_manually c choice ∷ [])
      × ((resolve_manually c choice).result ≡ chosen_info c choice)
      × (r'.stats.conflicts_manual ≡ decrement r.stats.conflicts_manual)
unfolding resolve_manual_conflict
resolve_manual_conflict_lem r c choice k h =
    let (found, left) = without_conflict_lem c.package_key r.manual_conflicts in
    let res = resolve_manually c choice in
    let r' : SyncResult = record r {
      resolutions = r.resolutions ++ res ∷ [];
      manual_conflicts = (without_conflict c.package_key r.manual_conflicts).1;
    } in
    let (entry, conflicts, listed, count) = apply_resolution_lem k c.package_key res r' in
    rw (found, h)
      (
        refl,
        conflicts ∙ left,
        entry
            ∙ ap (λ o. if str_eq c.package_key k then o else lookup k r.merged.packages)
                (entry_after-resolve_manually c choice (lookup k r.merged.packages)),
        listed,
        resolve_manually-result c choice,
        ap decrement count,
      )
