-- ===== src/Sync/Resolver/Rounds.antt =====
-- `ResolveAll` sorts each conflict into the resolutions or into the manual ones.
use preflight.GoMap.{is_some}
use preflight.Sync.VersionVector.{CausalRelation, at}
use preflight.Base.{
  Bool, All, Bool-cases, List, Option, String, [], ap, arith, eq_iff, false, if◌then◌else◌, inl,
  inr, ltb, none, not, refl, some, str_eq, sym, true, ◌&&◌, ◌++◌, ◌||◌, ◌∙◌, ◌∷◌, ◌≡◌,
}
use preflight.Sync.VersionVector.{CausalRelation, equal, before, after, concurrent}
use preflight.Sync.Conflict.{
  ConflictType, LockConflict, both_modified, local_only, remote_only, version_mismatch,
  both_have_provenance, info_is_zero, vectors_of,
}
use preflight.Sync.Detector.{DetectInput, conflict_at}
use preflight.Sync.Detector.Keys.{is_key, is_key-append}
use preflight.Sync.Detector.Partition.{IsAtKey}
use preflight.Sync.Resolver.{
  Resolution, ResolutionStrategy, auto, auto_by_type, auto_by_vector, by_timestamp, is_skipped,
  local_wins, manual, new_resolution, newest, newest_by_vector, remote_wins, resolve, resolve_auto,
  resolve_local_wins, resolve_newest, resolve_remote_wins, resolve_rounds,
  resolve_version_mismatch_auto, sort_out,
}

-- A resolution is of the conflict that it was asked for, and is never a skip.
pub data IsOf (c : LockConflict) : Option Resolution → Type 0 where
  unsettled : IsOf c none
  settles : {r : Resolution} → r.conflict ≡ c → is_skipped r ≡ false → IsOf c (some r)

by_timestamp-IsOf : (c : LockConflict) (a b : String) → IsOf c (by_timestamp c a b)
unfolding by_timestamp new_resolution is_skipped
by_timestamp-IsOf c a b = elim (Bool-cases (ltb c.remote.modified_at c.local.modified_at)) [
  | inl later ↦ rw later (settles refl refl)
  | inr not_later ↦ elim (Bool-cases (ltb c.local.modified_at c.remote.modified_at)) [
    | inl later ↦ rw (not_later, later) (settles refl refl)
    | inr same ↦ rw (not_later, same) unsettled
  ]
]

IsOf-if :
    (b : Bool) (c : LockConflict) (x y : Option Resolution)
    → IsOf c x
    → IsOf c y
    → IsOf c (if b then x else y)
IsOf-if true c x y h e = h
IsOf-if false c x y h e = e

newest_by_vector-IsOf : (c : LockConflict) (r : CausalRelation) → IsOf c (newest_by_vector c r)
unfolding newest_by_vector new_resolution is_skipped
newest_by_vector-IsOf c equal = by_timestamp-IsOf c _ _
newest_by_vector-IsOf c before = settles refl refl
newest_by_vector-IsOf c after = settles refl refl
newest_by_vector-IsOf c concurrent = unsettled

auto_by_vector-IsOf : (c : LockConflict) (r : CausalRelation) → IsOf c (auto_by_vector c r)
unfolding auto_by_vector new_resolution is_skipped
auto_by_vector-IsOf c equal = unsettled
auto_by_vector-IsOf c before = settles refl refl
auto_by_vector-IsOf c after = settles refl refl
auto_by_vector-IsOf c concurrent = unsettled

mismatch-IsOf : (c : LockConflict) → IsOf c (resolve_version_mismatch_auto c)
unfolding resolve_version_mismatch_auto
mismatch-IsOf c = IsOf-if (info_is_zero c.local || info_is_zero c.remote) c _ _ unsettled (
    IsOf-if (both_have_provenance c.local c.remote) c _ _
      (auto_by_vector-IsOf c (vectors_of c.local c.remote)) (by_timestamp-IsOf c _ _))

auto_by_type-IsOf : (t : ConflictType) (c : LockConflict) → IsOf c (auto_by_type t c)
unfolding auto_by_type new_resolution is_skipped
auto_by_type-IsOf version_mismatch c = mismatch-IsOf c
auto_by_type-IsOf local_only c = settles refl refl
auto_by_type-IsOf remote_only c = settles refl refl
auto_by_type-IsOf both_modified c =
    IsOf-if (info_is_zero c.local || info_is_zero c.remote) c _ _ unsettled (mismatch-IsOf c)

pub resolve-IsOf : (s : ResolutionStrategy) (c : LockConflict) → IsOf c (resolve s c)
unfolding resolve resolve_local_wins resolve_remote_wins resolve_newest resolve_auto new_resolution
    is_skipped
resolve-IsOf manual c = unsettled
resolve-IsOf newest c = IsOf-if (info_is_zero c.local || info_is_zero c.remote) c _ _ unsettled (
    IsOf-if (both_have_provenance c.local c.remote) c _ _
      (newest_by_vector-IsOf c (vectors_of c.local c.remote)) (by_timestamp-IsOf c _ _))
resolve-IsOf local_wins c = settles refl refl
resolve-IsOf remote_wins c = settles refl refl
resolve-IsOf auto c = auto_by_type-IsOf c.conflict_type c

-- A resolution under a key is listed.
abbrev pub is_settled : String → List Resolution → Bool
is_settled k [] = false
is_settled k (r ∷ rs) = str_eq r.conflict.package_key k || is_settled k rs

pub is_settled-append :
    (k : String) (xs ys : List Resolution)
    → is_settled k (xs ++ ys) ≡ (is_settled k xs || is_settled k ys)
is_settled-append k [] ys = refl
is_settled-append k (x ∷ xs) ys = ground (arith, is_settled-append k xs ys)

module _ (s : ResolutionStrategy) (input : DetectInput) where
  -- What the strategy makes of the conflict under a key.
  abbrev pub settled_at : String → Option Resolution
  settled_at k = resolve s (conflict_at input k)

  abbrev pub IsSettledAt : Resolution → Type 0
  IsSettledAt r = settled_at r.conflict.package_key ≡ some r

  abbrev SortedOut : Option Resolution → LockConflict → Type 0
  SortedOut o c =
      (k : String) (acc : List Resolution × List LockConflict)
      → (is_settled k (sort_out o c acc).0
          ≡ (is_settled k acc.0 || (str_eq c.package_key k && is_some o)))
        × (is_key k (sort_out o c acc).1
            ≡ (is_key k acc.1 || (str_eq c.package_key k && not (is_some o))))

  sort_out_lem : (o : Option Resolution) (c : LockConflict) → IsOf c o → SortedOut o c
  sort_out_lem none c unsettled k (rs, us) =
      (ground arith, ground (arith, is_key-append k us (c ∷ [])))
  sort_out_lem (some r) c (settles e _) k (rs, us) = (
    ground (arith, is_settled-append k rs (r ∷ []), ap (λ (d : LockConflict). d.package_key) e),
    ground arith,
  )

  pub resolve_rounds_keys :
      (cs : List LockConflict) (k : String) (acc : List Resolution × List LockConflict)
      → All (IsAtKey input) cs
      → (is_settled k (resolve_rounds s cs acc).0
          ≡ (is_settled k acc.0 || (is_key k cs && is_some (settled_at k))))
        × (is_key k (resolve_rounds s cs acc).1
            ≡ (is_key k acc.1 || (is_key k cs && not (is_some (settled_at k)))))
  unfolding resolve_rounds
  resolve_rounds_keys [] k acc h = (ground arith, ground arith)
  resolve_rounds_keys (c ∷ cs) k acc h =
      let (a, b) = resolve_rounds_keys cs k (sort_out (resolve s c) c acc) h.1 in
      let (a', b') = sort_out_lem (resolve s c) c (resolve-IsOf s c) k acc in
      let same : c.package_key ≡ k → settled_at k ≡ resolve s c =
        λ e. ap (resolve s) (ap (conflict_at input) (sym e) ∙ h.0) in
      (
        ground (arith, a, a', eq_iff c.package_key k, same),
        ground (arith, b, b', eq_iff c.package_key k, same),
      )

  AllSettled-append :
      (xs ys : List Resolution)
      → All IsSettledAt xs
      → All IsSettledAt ys
      → All IsSettledAt (xs ++ ys)
  AllSettled-append [] ys h e = e
  AllSettled-append (x ∷ xs) ys h e = (h.0, AllSettled-append xs ys h.1 e)

  sort_out-IsSettledAt :
      (o : Option Resolution) (c : LockConflict) (acc : List Resolution × List LockConflict)
      → resolve s c ≡ o
      → IsOf c o
      → IsAtKey input c
      → All IsSettledAt acc.0
      → All IsSettledAt (sort_out o c acc).0
  sort_out-IsSettledAt none c (rs, us) e unsettled at h = h
  sort_out-IsSettledAt (some r) c (rs, us) e (settles of _) at h =
      AllSettled-append rs (r ∷ []) h (
        ap (resolve s) (ap (λ (d : LockConflict). conflict_at input d.package_key) of ∙ at) ∙ e,
        tt,
      )

  pub resolve_rounds-IsSettledAt :
      (cs : List LockConflict) (acc : List Resolution × List LockConflict)
      → All (IsAtKey input) cs
      → All IsSettledAt acc.0
      → All IsSettledAt (resolve_rounds s cs acc).0
  unfolding resolve_rounds
  resolve_rounds-IsSettledAt [] acc h e = e
  resolve_rounds-IsSettledAt (c ∷ cs) acc h e =
      resolve_rounds-IsSettledAt cs (sort_out (resolve s c) c acc) h.1
        (sort_out-IsSettledAt (resolve s c) c acc refl (resolve-IsOf s c) h.0 e)
