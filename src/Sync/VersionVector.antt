-- ===== src/Sync/VersionVector.antt =====
-- internal/domain/sync/version_vector.go: vector clocks.
pub mod Order
pub mod Merge
use preflight.Base.{
  ℕ, ◌+◌, ◌%◌, ◌^◌, String, Bool, true, false, ◌||◌, Option, none, some, List, [], ◌∷◌, ltb,
  if◌then◌else◌,
}
use preflight.GoMap.{lookup, put, remove, keys, has, add_keys}

pub data CausalRelation : Type 0 where
  equal before after concurrent : CausalRelation

pub record VersionVector : Type 0 where
  pub entries : List (String × ℕ)

-- `v.entries[k]`: the zero value where the key is missing.
abbrev pub or_zero : Option ℕ → ℕ
or_zero none = 0
or_zero (some n) = n

unfoldable pub new_version_vector : VersionVector
new_version_vector = record { entries = [] }

abbrev pub at : List (String × ℕ) → String → ℕ
at m k = or_zero (lookup k m)

unfoldable pub get : VersionVector → String → ℕ
get v machine_id = at v.entries machine_id

unfoldable pub set : VersionVector → String → ℕ → VersionVector
set v machine_id value = record { entries = put machine_id value v.entries }

-- uint64 addition wraps.
abbrev pub u64 : ℕ → ℕ
u64 n = n % 2 ^ 64

unfoldable pub increment : VersionVector → String → VersionVector
increment v id = set v id (u64 (get v id + 1))

-- The second loop of `Merge`.
unfoldable pub merge_entries : List (String × ℕ) → List (String × ℕ) → List (String × ℕ)
merge_entries new_entries [] = new_entries
merge_entries new_entries ((k, val) ∷ other) =
    merge_entries (if ltb (at new_entries k) val then put k val new_entries else new_entries) other

unfoldable pub merge : VersionVector → VersionVector → VersionVector
unfolding merge_entries
merge v other = record { entries = merge_entries v.entries other.entries }

-- The loop over all machine IDs of `Compare`: whether some entry is less, and whether one is more.
unfoldable pub scan : VersionVector → VersionVector → List String → Bool → Bool → Bool × Bool
scan v other [] has_less has_more = (has_less, has_more)
scan v other (k ∷ ks) has_less has_more =
    let v_val = get v k in
    let o_val = get other k in
    scan v other ks (if ltb v_val o_val then true else has_less)
      (if ltb v_val o_val then has_more else if ltb o_val v_val then true else has_more)

-- The `switch` of `Compare`.
unfoldable pub classify : Bool → Bool → CausalRelation
classify false false = equal
classify true false = before
classify false true = after
classify true true = concurrent

-- The keys of the set `allKeys`.
unfoldable pub all_keys : VersionVector → VersionVector → List String
all_keys v other = keys (add_keys other.entries (add_keys v.entries []))

unfoldable pub compare : VersionVector → VersionVector → CausalRelation
unfolding scan classify all_keys
compare v other = elim (all_keys v other) [
  | [] ↦ equal
  | k ∷ ks ↦
      let (has_less, has_more) = scan v other (k ∷ ks) false false in classify has_less has_more
]

abbrev pub is_equal : CausalRelation → Bool
is_equal equal = true
is_equal _ = false

abbrev pub is_before : CausalRelation → Bool
is_before before = true
is_before _ = false

abbrev pub is_after : CausalRelation → Bool
is_after after = true
is_after _ = false

abbrev pub is_concurrent : CausalRelation → Bool
is_concurrent concurrent = true
is_concurrent _ = false

unfoldable pub dominates : VersionVector → VersionVector → Bool
dominates v other = let relation = compare v other in is_equal relation || is_after relation

unfoldable pub is_concurrent_with : VersionVector → VersionVector → Bool
is_concurrent_with v other = is_concurrent (compare v other)

unfoldable pub equals : VersionVector → VersionVector → Bool
equals v other = is_equal (compare v other)

unfoldable pub is_empty : VersionVector → Bool
is_empty v = elim v.entries [ [] ↦ true | _ ∷ _ ↦ false ]

unfoldable pub contains_machine : VersionVector → String → Bool
contains_machine v machine_id = has machine_id v.entries

unfoldable pub without_machine : VersionVector → String → VersionVector
without_machine v machine_id = record { entries = remove machine_id v.entries }
