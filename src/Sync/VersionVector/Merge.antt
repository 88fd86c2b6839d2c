-- ===== src/Sync/VersionVector/Merge.antt =====
-- `Merge` is the join of two vectors, and `Increment` moves a vector forward.
use preflight.Base.{
  ◌+◌, ◌^◌, ◌<◌, true, ◌↔◌, ℕ, max, String, false, List, [], ◌∷◌, ◌≡◌, arith, ltb, str_eq, eq_iff,
  if◌then◌else◌, inl, inr, ◌⊎◌,
}
use native.Mathlib.Decide.{dec_lt}
use preflight.GoMap.Laws.{put-IsMap}
use preflight.GoMap.{lookup, put, has, IsMap}
use preflight.GoMap.Laws.{lookup-put}
use preflight.Sync.VersionVector.Order.{compare_iff, dominates_iff}
use preflight.Sync.VersionVector.{
  before, after, VersionVector, get, set, u64, increment, merge, compare, dominates, at,
  merge_entries,
}

at-put :
    (k j : String) (n : ℕ) (m : List (String × ℕ))
    → at (put j n m) k ≡ (if str_eq j k then n else at m k)
at-put k j n m = ground (arith, lookup-put k j n m)

-- The entry of `k` that the rest of a map has, once its first entry is known not to be `k`'s.
at-cons :
    (k j : String) (n : ℕ) (m : List (String × ℕ))
    → at ((j, n) ∷ m) k ≡ (if str_eq j k then n else at m k)
unfolding lookup
at-cons k j n m = ground arith

absent-at : (k : String) (m : List (String × ℕ)) → has k m ≡ false → at m k ≡ 0
absent-at k m h = ground arith

at-merge_entries :
    (k : String) (m other : List (String × ℕ))
    → IsMap other
    → at (merge_entries m other) k ≡ max (at m k) (at other k)
unfolding merge_entries
at-merge_entries k m [] h = unfold lookup in omega arith
at-merge_entries k m ((j, n) ∷ other) h = ground (
  arith,
  at-merge_entries k (if ltb (at m j) n then put j n m else m) other,
  at-put k j n m,
  at-cons k j n other,
  absent-at j other,
  eq_iff j k,
)

-- If the second vector has each machine once, the merge has for each machine the larger of its two
-- times.
pub get-merge :
    (v w : VersionVector) (k : String)
    → IsMap w.entries
    → get (merge v w) k ≡ max (get v k) (get w k)
unfolding get merge
get-merge v w k h = at-merge_entries k v.entries w.entries h

-- If the second vector has each machine once, a vector dominates the merge of the two exactly if
-- it dominates both of them: the merge is their least upper bound.
pub merge_join :
    (u v w : VersionVector)
    → IsMap w.entries
    → (dominates u (merge v w) ≡ true) ↔ ((dominates u v ≡ true) × (dominates u w ≡ true))
merge_join u v w h = (
  λ d.
      let below = (dominates_iff u (merge v w)).0 d in
      (
        (dominates_iff u v).1 (λ k. omega (arith, below k, get-merge v w k h)),
        (dominates_iff u w).1 (λ k. omega (arith, below k, get-merge v w k h)),
      ),
  λ (d, e).
      let below = (dominates_iff u v).0 d in
      let below' = (dominates_iff u w).0 e in
      (dominates_iff u (merge v w)).1 (λ k. omega (arith, below k, below' k, get-merge v w k h)),
)

merge_entries-IsMap : (m other : List (String × ℕ)) → IsMap m → IsMap (merge_entries m other)
unfolding merge_entries
merge_entries-IsMap m [] h = h
merge_entries-IsMap m ((j, n) ∷ other) h =
    merge_entries-IsMap (if ltb (at m j) n then put j n m else m) other
      (ground (arith, put-IsMap j n m h))

-- A merge keeps one entry for each machine.
pub merge-IsMap : (v w : VersionVector) → IsMap v.entries → IsMap (merge v w).entries
unfolding merge
merge-IsMap v w h = merge_entries-IsMap v.entries w.entries h

pub get-increment :
    (v : VersionVector) (id k : String)
    → get (increment v id) k ≡ (if str_eq id k then u64 (get v id + 1) else get v k)
unfolding get increment set
get-increment v id k = at-put k id (u64 (at v.entries id + 1)) v.entries

-- For a time that fits in a uint64: while it does not wrap, incrementing it gives a vector that is
-- strictly after the old one; at the largest value it wraps to 0 and the new vector is before the
-- old one.
pub compare-increment :
    (v : VersionVector) (id : String)
    → get v id < 2 ^ 64
    → ((get v id + 1 < 2 ^ 64) × (compare (increment v id) v ≡ after))
      ⊎ ((get v id + 1 ≡ 2 ^ 64) × (compare (increment v id) v ≡ before))
compare-increment v id h = elim (dec_lt (get v id + 1) (2 ^ 64)) [
  | yes lt ↦ inl (
    lt,
    (compare_iff after (increment v id) v).1 (
      λ k. ground (arith, get-increment v id k, eq_iff id k),
      (id, ground (arith, get-increment v id id, eq_iff id id)),
    ),
  )
  | no ge ↦ inr (
    omega arith,
    (compare_iff before (increment v id) v).1 (
      (id, ground (arith, get-increment v id id, eq_iff id id)),
      λ k. ground (arith, get-increment v id k, eq_iff id k),
    ),
  )
]
