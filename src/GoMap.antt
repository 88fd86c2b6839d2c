-- ===== src/GoMap.antt =====
-- Go's `map[string]V`: an association list with one entry for each key. A nil map and an empty
-- one answer every lookup alike and are not told apart. Where the code ranges over a map the
-- model goes through the entries in the order in which the keys were first written.
pub mod Laws
pub mod Rebuild
pub mod Unmarked
use preflight.Base.{
  ℕ, String, Bool, true, false, Option, none, some, List, [], ◌∷◌, ◌≡◌, map, str_eq, if◌then◌else◌,
}

module _ {ℓ} {V : Type ℓ} where
  unfoldable pub lookup : String → List (String × V) → Option V
  lookup k [] = none
  lookup k ((j, v) ∷ m) = if str_eq j k then some v else lookup k m

  unfoldable pub put : String → V → List (String × V) → List (String × V)
  put k v [] = (k, v) ∷ []
  put k v ((j, w) ∷ m) = if str_eq j k then (j, v) ∷ m else (j, w) ∷ put k v m

  -- delete(m, k)
  unfoldable pub remove : String → List (String × V) → List (String × V)
  remove k [] = []
  remove k ((j, w) ∷ m) = let rest = remove k m in if str_eq j k then rest else (j, w) ∷ rest

  unfoldable pub keys : List (String × V) → List String
  keys [] = []
  keys ((j, w) ∷ m) = j ∷ keys m

abbrev pub is_some {ℓ} : {V : Type ℓ} → Option V → Bool
is_some none = false
is_some (some v) = true

module _ {ℓ} {V : Type ℓ} where
  -- `_, ok := m[k]`
  abbrev pub has : String → List (String × V) → Bool
  has k m = is_some (lookup k m)

  -- No key stands twice: what holds of every map that Go can build.
  abbrev pub IsMap : List (String × V) → Type 0
  IsMap [] = Unit
  IsMap ((j, w) ∷ m) = (has j m ≡ false) × IsMap m

-- `for k := range m { set[k] = struct{}{} }`
unfoldable pub add_keys {ℓ} :
    {V : Type ℓ} → List (String × V) → List (String × Unit {0}) → List (String × Unit {0})
unfolding put
add_keys [] set = set
add_keys ((k, v) ∷ m) set = add_keys m (put k tt set)
