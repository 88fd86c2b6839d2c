-- ===== src/Sync/Detector/Partition.antt =====
-- `Detect` sorts every key into exactly one of its lists, or none.
use preflight.Base.{
  All, Bool-cases, List, String, [], ap, arith, false, inl, inr, not, ◌&&◌, ◌++◌, ◌∷◌, ◌≡◌, member,
}
use preflight.Sync.Conflict.{LockConflict, conflict_is_zero, is_resolvable}
use preflight.Sync.Detector.{
  DetectResult, DetectInput, all_conflicts, conflict_at, detect, detect_key, detect_keys,
  package_keys,
}
use preflight.Sync.Detector.Keys.{
  is_key, conflict_at-absent, is_common, is_conflicting, is_key-append, member-package_keys,
  package_key-conflict_at, auto_resolvable-detect_keys, clean-detect_keys, conflicts-detect_keys,
}

-- A key that is in conflict is on some side, so the loop visits it.
conflicting_is_visited :
    (input : DetectInput) (k : String)
    → (member k (package_keys input) && is_conflicting input k) ≡ is_conflicting input k
conflicting_is_visited input k =
    ground (arith, member-package_keys input k, conflict_at-absent input k)

-- A key stands in `conflicts` exactly if it is in a conflict that is not resolvable, in
-- `auto_resolvable` exactly if it is in one that is, and in `clean` exactly if it is on both sides
-- and in no conflict.
pub detect_partition :
    (input : DetectInput) (k : String)
    → (is_key k (detect input).conflicts
        ≡ (is_conflicting input k && not (is_resolvable (conflict_at input k))))
      × (is_key k (detect input).auto_resolvable
          ≡ (is_conflicting input k && is_resolvable (conflict_at input k)))
      × (member k (detect input).clean ≡ (not (is_conflicting input k) && is_common input k))
unfolding detect
detect_partition input k =
    let nothing : DetectResult = record { conflicts = []; auto_resolvable = []; clean = [] } in
    (
      ground (
        arith,
        conflicts-detect_keys input k (package_keys input) nothing,
        conflicting_is_visited input k,
      ),
      ground (
        arith,
        auto_resolvable-detect_keys input k (package_keys input) nothing,
        conflicting_is_visited input k,
      ),
      ground (
        arith,
        clean-detect_keys input k (package_keys input) nothing,
        member-package_keys input k,
      ),
    )

pub is_key-all_conflicts :
    (input : DetectInput) (k : String)
    → is_key k (all_conflicts (detect input)) ≡ is_conflicting input k
unfolding all_conflicts
is_key-all_conflicts input k =
    let (here, there, _) = detect_partition input k in
    ground (arith, is_key-append k (detect input).conflicts (detect input).auto_resolvable)

-- A conflict is the one that its key has.
abbrev pub IsAtKey : DetectInput → LockConflict → Type 0
IsAtKey input c = conflict_at input c.package_key ≡ c

All-snoc :
    (input : DetectInput) (cs : List LockConflict) (c : LockConflict)
    → All (IsAtKey input) cs
    → IsAtKey input c
    → All (IsAtKey input) (cs ++ c ∷ [])
All-snoc input [] c h e = (e, tt)
All-snoc input (d ∷ ds) c h e = (h.0, All-snoc input ds c h.1 e)

All-append :
    (input : DetectInput) (cs ds : List LockConflict)
    → All (IsAtKey input) cs
    → All (IsAtKey input) ds
    → All (IsAtKey input) (cs ++ ds)
All-append input [] ds h e = e
All-append input (c ∷ cs) ds h e = (h.0, All-append input cs ds h.1 e)

conflict_at-IsAtKey :
    (input : DetectInput) (k : String)
    → conflict_is_zero (conflict_at input k) ≡ false
    → IsAtKey input (conflict_at input k)
conflict_at-IsAtKey input k h = ap (conflict_at input) (package_key-conflict_at input k h)

AllAtKey : DetectInput → DetectResult → Type 0
AllAtKey input r = All (IsAtKey input) r.conflicts × All (IsAtKey input) r.auto_resolvable

detect_key-AllAtKey :
    (input : DetectInput) (k : String) (r : DetectResult)
    → AllAtKey input r
    → AllAtKey input (detect_key input k r)
unfolding detect_key AllAtKey
detect_key-AllAtKey input k r h = elim (Bool-cases (conflict_is_zero (conflict_at input k))) [
  | inl zero_c ↦ rw zero_c (ground arith)
  | inr real ↦ elim (Bool-cases (is_resolvable (conflict_at input k))) [
    | inl easy ↦
        rw (real, easy)
          (h.0, All-snoc input r.auto_resolvable _ h.1 (conflict_at-IsAtKey input k real))
    | inr hard ↦
        rw (real, hard) (All-snoc input r.conflicts _ h.0 (conflict_at-IsAtKey input k real), h.1)
  ]
]

detect_keys-AllAtKey :
    (input : DetectInput) (ks : List String) (r : DetectResult)
    → AllAtKey input r
    → AllAtKey input (detect_keys input ks r)
unfolding detect_keys
detect_keys-AllAtKey input [] r h = h
detect_keys-AllAtKey input (k ∷ ks) r h =
    detect_keys-AllAtKey input ks (detect_key input k r) (detect_key-AllAtKey input k r h)

pub all_conflicts-IsAtKey :
    (input : DetectInput) → All (IsAtKey input) (all_conflicts (detect input))
unfolding all_conflicts detect AllAtKey
all_conflicts-IsAtKey input =
    let (a, b) = detect_keys-AllAtKey input (package_keys input) _ (tt, tt) in
    All-append input (detect input).conflicts (detect input).auto_resolvable a b
