-- ===== src/Sync/Merger/Changes.antt =====
-- What `Diff` lists.
use preflight.Sync.Provenance.{provenance_equals}
use preflight.Base.{
  String, Bool-cases, List, Option, [], arith, eq_iff, false, if◌then◌else◌, inl, inr, none, refl,
  some, str_eq, ◌++◌, ◌∙◌, ◌∷◌, ◌≡◌, ap, subst, sym, true, ◌↔◌, ◌⊎◌,
}
use preflight.GoMap.{lookup, has, IsMap, is_some}
use preflight.Sync.VersionVector.{equal}
use preflight.Sync.VersionVector.Order.{Relates, equals_iff}
use preflight.Sync.Conflict.{PackageLockInfo, info_equals, zero_info}
use preflight.Sync.Detector.{Packages}
use preflight.Sync.State.{LockfileState}
use preflight.Sync.Merger.{
  MergeChange, diff, added_or_updated, change_to, cons_if_some, removed_change, removed_packages,
  MergeChangeType, change_added, change_removed, change_updated,
}

-- The first change of a key.
abbrev pub find_change : String → List MergeChange → Option MergeChange
find_change k [] = none
find_change k (c ∷ cs) = if str_eq c.package_key k then some c else find_change k cs

abbrev or_else : Option MergeChange → Option MergeChange → Option MergeChange
or_else none d = d
or_else (some c) d = some c

-- Two entries with the same version, author and time vector; the time of the change is not read.
abbrev pub IsSameInfo : PackageLockInfo → PackageLockInfo → Type 0
IsSameInfo old new =
    (old.version ≡ new.version)
    × (old.provenance.modified_by ≡ new.provenance.modified_by)
    × Relates equal old.provenance.vector_at_change new.provenance.vector_at_change

abbrev pub change_of_type :
    String → MergeChangeType → PackageLockInfo → PackageLockInfo → String → MergeChange
change_of_type k kind before after reason = record {
  package_key = k;
  change_type = kind;
  before = before;
  after = after;
  reason = reason;
}

-- What is told of a key whose two entries are given.
abbrev pub IsChangeOf :
    String → Option PackageLockInfo → Option PackageLockInfo → Option MergeChange → Type 0
IsChangeOf k none none told = told ≡ none
IsChangeOf k none (some new) told =
    told ≡ some (change_of_type k change_added zero_info new "added")
IsChangeOf k (some old) none told =
    told ≡ some (change_of_type k change_removed old zero_info "removed")
IsChangeOf k (some old) (some new) told =
    (IsSameInfo old new × (told ≡ none))
    ⊎ ((¬ IsSameInfo old new) × (told ≡ some (change_of_type k change_updated old new "updated")))

-- The change of a key, as the code computes it from its two entries.
abbrev expected_change :
    String → Option PackageLockInfo → Option PackageLockInfo → Option MergeChange
expected_change k before (some info) = change_to k before info
expected_change k (some old) none = some (removed_change k old)
expected_change k none none = none

info_equals_iff : (old new : PackageLockInfo) → (info_equals old new ≡ true) ↔ IsSameInfo old new
unfolding info_equals provenance_equals
info_equals_iff old new =
    let v = old.provenance.vector_at_change in
    let w = new.provenance.vector_at_change in
    (
      λ h. (
        (eq_iff old.version new.version).0 (ground arith),
        (eq_iff old.provenance.modified_by new.provenance.modified_by).0 (ground arith),
        (equals_iff v w).0 (ground arith),
      ),
      λ (version, author, times).
          rw
            (
              (eq_iff old.version new.version).1 version,
              (eq_iff old.provenance.modified_by new.provenance.modified_by).1 author,
              (equals_iff v w).1 times,
            )
            refl,
    )

expected_change_lem :
    (k : String) (before after : Option PackageLockInfo)
    → IsChangeOf k before after (expected_change k before after)
unfolding change_to
expected_change_lem k none none = refl
expected_change_lem k none (some new) = refl
expected_change_lem k (some old) none = refl
expected_change_lem k (some old) (some new) = elim (Bool-cases (info_equals old new)) [
  | inl same ↦ inl ((info_equals_iff old new).0 same, rw same refl)
  | inr other ↦
      inr (λ h. let same = (info_equals_iff old new).1 h in cc (same, other), rw other refl)
]

or_else-none : (o : Option MergeChange) → or_else o none ≡ o
or_else-none none = refl
or_else-none (some c) = refl

find_change-append :
    (k : String) (xs ys : List MergeChange)
    → find_change k (xs ++ ys) ≡ or_else (find_change k xs) (find_change k ys)
find_change-append k [] ys = refl
find_change-append k (x ∷ xs) ys = ground (arith, find_change-append k xs ys)

find_change-cons :
    (k key : String) (old : Option PackageLockInfo) (info : PackageLockInfo) (cs : List MergeChange)
    → find_change k (cons_if_some (change_to key old info) cs) ≡ (
        if str_eq key k
        then or_else (change_to key old info) (find_change k cs)
        else find_change k cs)
unfolding change_to
find_change-cons k key none info cs = ground arith
find_change-cons k key (some old) info cs = ground arith

abbrev change_at : String → Packages → Option PackageLockInfo → Option MergeChange
change_at k before none = none
change_at k before (some info) = change_to k (lookup k before) info

pub absent_lem : (k : String) (m : Packages) → has k m ≡ false → lookup k m ≡ none
absent_lem k m h = go (lookup k m) h
  where
    go : (o : Option PackageLockInfo) → is_some o ≡ false → o ≡ none
    go none e = refl
    go (some x) e = cc

added_or_updated_lem :
    (k : String) (before after : Packages)
    → IsMap after
    → find_change k (added_or_updated before after) ≡ change_at k before (lookup k after)
unfolding added_or_updated lookup
added_or_updated_lem k before [] h = refl
added_or_updated_lem k before ((key, info) ∷ after) (fresh, h) =
    let rest = added_or_updated_lem k before after h in
    let here = find_change-cons k key (lookup key before) info (added_or_updated before after) in
    elim (Bool-cases (str_eq key k)) [
      | inl same ↦
          let p = (eq_iff key k).0 same in
          let gone : has k after ≡ false = subst (λ j. has j after ≡ false) p fresh in
          let tail : find_change k (added_or_updated before after) ≡ none =
            rest ∙ ap (change_at k before) (absent_lem k after gone) in
          here ∙ rw same (rw (p, tail) (or_else-none (change_to k (lookup k before) info)))
      | inr other ↦ here ∙ rw other rest
    ]

abbrev removed_at : String → Option PackageLockInfo → Option MergeChange
removed_at k none = none
removed_at k (some old) = some (removed_change k old)

removed_packages_lem :
    (k : String) (after before : Packages)
    → IsMap before
    → find_change k (removed_packages after before)
      ≡ (if has k after then none else removed_at k (lookup k before))
unfolding removed_packages lookup
removed_packages_lem k after [] h = ground arith
removed_packages_lem k after ((key, info) ∷ before) (fresh, h) =
    let rest = removed_packages_lem k after before h in
    elim (Bool-cases (str_eq key k)) [
      | inl same ↦
          let p = (eq_iff key k).0 same in
          let gone : has k before ≡ false = subst (λ j. has j before ≡ false) p fresh in
          let tail =
            rest
            ∙ ap (λ o. if has k after then none else removed_at k o) (absent_lem k before gone) in
          rw p (ground (arith, tail, eq_iff k k))
      | inr other ↦ ground (arith, rest, other)
    ]

sides_lem :
    (k : String) (before : Packages) (o a : Option PackageLockInfo)
    → o ≡ lookup k before
    → or_else (change_at k before a) (if is_some a then none else removed_at k o)
      ≡ expected_change k o a
sides_lem k before none none e = refl
sides_lem k before (some old) none e = refl
sides_lem k before o (some info) e = rw e (or_else-none (change_to k (lookup k before) info))

changes_lem :
    (before after : LockfileState) (k : String)
    → IsMap before.packages
    → IsMap after.packages
    → find_change k (diff (some before) (some after))
      ≡ expected_change k (lookup k before.packages) (lookup k after.packages)
unfolding diff
changes_lem before after k h h' =
    let b = before.packages in
    let a = after.packages in
    find_change-append k (added_or_updated b a) (removed_packages a b)
    ∙ rw (added_or_updated_lem k b a h', removed_packages_lem k a b h)
        (sides_lem k b (lookup k b) (lookup k a) refl)

-- If both states have each key once, their difference has for each key, as its first change: an
-- addition if the key has only a new entry, a removal if it has only an old one, an update from
-- the old entry to the new one if the two differ in version, in author or in the time of a machine,
-- and otherwise none.
pub diff_lem :
    (before after : LockfileState) (k : String)
    → IsMap before.packages
    → IsMap after.packages
    → IsChangeOf k
        (lookup k before.packages)
        (lookup k after.packages)
        (find_change k (diff (some before) (some after)))
diff_lem before after k h h' =
    subst (IsChangeOf k (lookup k before.packages) (lookup k after.packages))
      (sym (changes_lem before after k h h'))
      (expected_change_lem k (lookup k before.packages) (lookup k after.packages))
