-- ===== src/Sync/Detector/Keys.antt =====
-- Which conflicts and clean keys `Detect` lists.
use preflight.GoMap.Laws.{member-keys, has-add_keys}
use preflight.Base.{
  Bool, List, String, [], arith, eq_iff, false, refl, str_eq, true, ◌++◌, ◌||◌, ◌∷◌, ◌≡◌, Option,
  none, not, some, ◌&&◌, Bool-iff, member, member-append,
}
use preflight.GoMap.{lookup, has, is_some, add_keys}
use preflight.Sync.Conflict.{
  PackageLockInfo, LockConflict, conflict_is_zero, new_lock_conflict, zero_conflict, is_resolvable,
}
use preflight.Sync.Detector.{
  DetectResult, DetectInput, conflict_at, detect_conflict, detect_key, detect_keys, package_keys,
}

zero_key : conflict_is_zero zero_conflict ≡ true
unfolding conflict_is_zero
zero_key = refl

-- A conflict that is one is under the key that was asked for.
pub package_key-detect_conflict :
    (k : String) (local remote base : Option PackageLockInfo)
    → conflict_is_zero (detect_conflict k local remote base) ≡ false
    → (detect_conflict k local remote base).package_key ≡ k
unfolding detect_conflict new_lock_conflict
package_key-detect_conflict k (some l) none (some b) h = refl
package_key-detect_conflict k (some l) none none h = refl
package_key-detect_conflict k none (some r) (some b) h = refl
package_key-detect_conflict k none (some r) none h = refl
package_key-detect_conflict k none none b h = cc zero_key
package_key-detect_conflict k (some l) (some r) b h = ground (arith, zero_key)

pub package_key-conflict_at :
    (input : DetectInput) (k : String)
    → conflict_is_zero (conflict_at input k) ≡ false
    → (conflict_at input k).package_key ≡ k
unfolding conflict_at
package_key-conflict_at input k =
    package_key-detect_conflict k (lookup k input.local) (lookup k input.remote)
      (lookup k input.base)

absent_is_zero :
    (k : String) (local remote base : Option PackageLockInfo)
    → is_some local ≡ false
    → is_some remote ≡ false
    → conflict_is_zero (detect_conflict k local remote base) ≡ true
unfolding detect_conflict
absent_is_zero k none none b hl hr = zero_key
absent_is_zero k none (some _) b hl hr = cc
absent_is_zero k (some _) r b hl hr = cc

-- A key that is on neither side is no conflict.
pub conflict_at-absent :
    (input : DetectInput) (k : String)
    → has k input.local ≡ false
    → has k input.remote ≡ false
    → conflict_is_zero (conflict_at input k) ≡ true
unfolding conflict_at
conflict_at-absent input k = absent_is_zero k (lookup k input.local) (lookup k input.remote) _

abbrev pub is_key : String → List LockConflict → Bool
is_key k [] = false
is_key k (c ∷ cs) = str_eq c.package_key k || is_key k cs

pub is_key-append :
    (k : String) (cs ds : List LockConflict) → is_key k (cs ++ ds) ≡ (is_key k cs || is_key k ds)
is_key-append k [] ds = refl
is_key-append k (c ∷ cs) ds = ground (arith, is_key-append k cs ds)

-- Whether a key is in conflict, and whether it is clean.
abbrev pub is_conflicting : DetectInput → String → Bool
is_conflicting input k = not (conflict_is_zero (conflict_at input k))

abbrev pub is_common : DetectInput → String → Bool
is_common input k = has k input.local && has k input.remote

conflicts-detect_key :
    (input : DetectInput) (k j : String) (r : DetectResult)
    → is_key k (detect_key input j r).conflicts ≡ (
        is_key k r.conflicts
        || (str_eq j k && (is_conflicting input j && not (is_resolvable (conflict_at input j)))))
unfolding detect_key
conflicts-detect_key input k j r =
    ground (
      arith,
      package_key-conflict_at input j,
      is_key-append k r.conflicts (conflict_at input j ∷ []),
    )

auto_resolvable-detect_key :
    (input : DetectInput) (k j : String) (r : DetectResult)
    → is_key k (detect_key input j r).auto_resolvable ≡ (
        is_key k r.auto_resolvable
        || (str_eq j k && (is_conflicting input j && is_resolvable (conflict_at input j))))
unfolding detect_key
auto_resolvable-detect_key input k j r = ground (
  arith,
  package_key-conflict_at input j,
  is_key-append k r.auto_resolvable (conflict_at input j ∷ []),
)

clean-detect_key :
    (input : DetectInput) (k j : String) (r : DetectResult)
    → member k (detect_key input j r).clean
      ≡ (member k r.clean || (str_eq j k && (not (is_conflicting input j) && is_common input j)))
unfolding detect_key
clean-detect_key input k j r = ground (arith, member-append k r.clean (j ∷ []))

pub conflicts-detect_keys :
    (input : DetectInput) (k : String) (ks : List String) (r : DetectResult)
    → is_key k (detect_keys input ks r).conflicts ≡ (
        is_key k r.conflicts
        || (member k ks && (is_conflicting input k && not (is_resolvable (conflict_at input k)))))
unfolding detect_keys
conflicts-detect_keys input k [] r = ground arith
conflicts-detect_keys input k (j ∷ ks) r = ground (
  arith,
  conflicts-detect_keys input k ks (detect_key input j r),
  conflicts-detect_key input k j r,
  eq_iff j k,
)

pub auto_resolvable-detect_keys :
    (input : DetectInput) (k : String) (ks : List String) (r : DetectResult)
    → is_key k (detect_keys input ks r).auto_resolvable ≡ (
        is_key k r.auto_resolvable
        || (member k ks && (is_conflicting input k && is_resolvable (conflict_at input k))))
unfolding detect_keys
auto_resolvable-detect_keys input k [] r = ground arith
auto_resolvable-detect_keys input k (j ∷ ks) r = ground (
  arith,
  auto_resolvable-detect_keys input k ks (detect_key input j r),
  auto_resolvable-detect_key input k j r,
  eq_iff j k,
)

pub clean-detect_keys :
    (input : DetectInput) (k : String) (ks : List String) (r : DetectResult)
    → member k (detect_keys input ks r).clean
      ≡ (member k r.clean || (member k ks && (not (is_conflicting input k) && is_common input k)))
unfolding detect_keys
clean-detect_keys input k [] r = ground arith
clean-detect_keys input k (j ∷ ks) r = ground (
  arith,
  clean-detect_keys input k ks (detect_key input j r),
  clean-detect_key input k j r,
  eq_iff j k,
)

-- The loop visits the keys of both sides.
pub member-package_keys :
    (input : DetectInput) (k : String)
    → member k (package_keys input) ≡ (has k input.local || has k input.remote)
unfolding package_keys
member-package_keys input k =
    let all = add_keys input.remote (add_keys input.local []) in
    let at_remote = has-add_keys k input.remote (add_keys input.local []) in
    let at_local = has-add_keys k input.local [] in
    Bool-iff _ _ (λ h. ground (arith, member-keys k all, at_remote.0, at_local.0, no_key k))
      (λ h. ground (arith, member-keys k all, at_remote.1, at_local.1))
  where
    no_key : (k : String) → has {V = Unit {0}} k [] ≡ false
    no_key k = unfold lookup in refl
