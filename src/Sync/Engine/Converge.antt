-- ===== src/Sync/Engine/Converge.antt =====
-- Two machines that synchronise with one another arrive at the same versions.
use preflight.Sync.Detector.Keys.{is_key}
use preflight.Sync.Building.Lookup.{first_of_sides}
use preflight.Base.{
  Bool, Option, String, arith, eq_iff, false, if◌then◌else◌, none, refl, some, true, ◌≡◌, ◌≢◌, ◌⊎◌,
  Bool-cases, ap, inl, inr, sym, ℕ, ◌∙◌,
}
use preflight.GoMap.{lookup, is_some}
use preflight.Sync.Conflict.{
  PackageLockInfo, LockConflict, conflict_is_zero, info_is_zero, new_lock_conflict,
}
use preflight.Sync.Detector.{detect_conflict, detect_version_conflict, conflict_at}
use preflight.Sync.Resolver.{
  Resolution, manual, newest, local_wins, remote_wins, auto, ResolutionStrategy, resolve,
}
use preflight.Sync.Resolver.Mirror.{mirror, auto-mirror, chosen, newest-mirror, detect-mirror}
use preflight.Sync.State.{LockfileState, SyncEngine}
use preflight.Sync.Engine.{sync_states, base_packages, detect_input}
use preflight.Sync.Engine.Pointwise.{merged_entry, sync_pointwise, entry_of, resolve_all_keys}

-- The strategies that do not prefer a side.
abbrev pub is_symmetric : ResolutionStrategy → Bool
is_symmetric local_wins = false
is_symmetric remote_wins = false
is_symmetric _ = true

resolve-mirror :
    (s : ResolutionStrategy) (c : LockConflict)
    → is_symmetric s ≡ true
    → chosen (resolve s (mirror c)) ≡ chosen (resolve s c)
unfolding resolve
resolve-mirror manual c h = refl
resolve-mirror newest c h = newest-mirror c
resolve-mirror local_wins c h = cc
resolve-mirror remote_wins c h = cc
resolve-mirror auto c h = auto-mirror c

abbrev pub version_of : Option PackageLockInfo → Option String
version_of none = none
version_of (some info) = some info.version

-- The entry of a package that was chosen.
abbrev entry_chosen : Option PackageLockInfo → Option PackageLockInfo
entry_chosen none = none
entry_chosen (some info) = if info_is_zero info then none else some info

entry_of-chosen :
    (o : Option Resolution) (l r : Option PackageLockInfo)
    → is_some o ≡ true
    → entry_of o l r ≡ entry_chosen (chosen o)
entry_of-chosen none l r h = cc
entry_of-chosen (some q) l r h = refl

is_some-chosen : (o : Option Resolution) → is_some (chosen o) ≡ is_some o
is_some-chosen none = refl
is_some-chosen (some q) = refl

-- Where a named key is in no conflict, its sides have one version.
same_version :
    (k : String) (l r b : Option PackageLockInfo)
    → k ≢ ""
    → conflict_is_zero (detect_conflict k l r b) ≡ true
    → version_of (first_of_sides l r none) ≡ version_of (first_of_sides r l none)
unfolding detect_conflict new_lock_conflict conflict_is_zero
same_version k none none b ne h = refl
same_version k (some l) none none ne h = absurd (ne ((eq_iff k "").0 h))
same_version k (some l) none (some b) ne h = absurd (ne ((eq_iff k "").0 h))
same_version k none (some r) none ne h = absurd (ne ((eq_iff k "").0 h))
same_version k none (some r) (some b) ne h = absurd (ne ((eq_iff k "").0 h))
same_version k (some l) (some r) b ne h =
    unfold detect_version_conflict in ground (arith, eq_iff l.version r.version, eq_iff k "")

settled_or_quiet :
    (e : SyncEngine) (local remote : LockfileState) (base : Option LockfileState) (now : ℕ)
    (k : String)
    → is_key k (sync_states e local remote base now).manual_conflicts ≡ false
    → let c =
        detect_conflict k
          (lookup k local.packages)
          (lookup k remote.packages)
          (lookup k (base_packages base)) in
      (conflict_is_zero c ≡ true) ⊎ (is_some (resolve e.strategy c) ≡ true)
unfolding sync_states detect_input conflict_at
settled_or_quiet e local remote base now k done =
    let (_, left) = resolve_all_keys e.strategy (detect_input local remote base) k in
    ground (arith, left)

mirrored :
    (s : ResolutionStrategy) (k : String) (l r b : Option PackageLockInfo)
    → is_symmetric s ≡ true
    → k ≢ ""
    → (conflict_is_zero (detect_conflict k l r b) ≡ true)
      ⊎ (is_some (resolve s (detect_conflict k l r b)) ≡ true)
    → version_of (merged_entry s k l r b) ≡ version_of (merged_entry s k r l b)
unfolding merged_entry
mirrored s k l r b sym_s ne h =
    let c = detect_conflict k l r b in
    let same_key : conflict_is_zero (mirror c) ≡ conflict_is_zero c =
      unfold conflict_is_zero in refl in
    elim (Bool-cases (conflict_is_zero c)) [
      | inl quiet ↦
          rw (detect-mirror k l r b)
            (ground (arith, same_key, quiet, same_version k l r b ne quiet))
      | inr loud ↦
          let settled : is_some (resolve s c) ≡ true = elim h [ inl e ↦ cc | inr e ↦ e ] in
          let back = resolve-mirror s c sym_s in
          rw (detect-mirror k l r b) (
            ground (
              arith,
              same_key,
              loud,
              back,
              entry_of-chosen (resolve s c) l r,
              entry_of-chosen (resolve s (mirror c)) r l,
              is_some-chosen (resolve s c),
              is_some-chosen (resolve s (mirror c)),
            ))
    ]

-- Where two machines, with engines of their own, synchronise with one another under a common
-- strategy that does not prefer a side, a package with a non-empty key that the first of them does
-- not leave for manual resolution has the same version on both, or is absent on both.
pub sync_converges :
    (e other : SyncEngine) (local remote : LockfileState) (base : Option LockfileState)
    (now later : ℕ) (k : String)
    → is_symmetric e.strategy ≡ true
    → e.strategy ≡ other.strategy
    → k ≢ ""
    → is_key k (sync_states e local remote base now).manual_conflicts ≡ false
    → version_of (lookup k (sync_states e local remote base now).merged.packages)
      ≡ version_of (lookup k (sync_states other remote local base later).merged.packages)
sync_converges e other local remote base now later k sym_s common ne done =
    ap version_of (sync_pointwise e local remote base now k)
    ∙ mirrored e.strategy k (lookup k local.packages) (lookup k remote.packages)
        (lookup k (base_packages base)) sym_s ne (settled_or_quiet e local remote base now k done)
    ∙ ap
        (λ s. version_of (
          merged_entry s k (lookup k remote.packages) (lookup k local.packages)
            (lookup k (base_packages base))))
        common
    ∙ sym (ap version_of (sync_pointwise other remote local base later k))
