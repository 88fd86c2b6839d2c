-- ===== src/GoMap/Laws.antt =====
-- What a lookup sees after each operation on a map.
use preflight.Base.{
  String, true, none, some, List, [], ◌∷◌, ◌≡◌, ◌⊎◌, ◌↔◌, inr, refl, arith, str_eq, eq_iff,
  if◌then◌else◌, Has, ap, count, length, member, suc,
}
use preflight.GoMap.{lookup, put, remove, keys, has, IsMap, add_keys}

module _ {ℓ} {V : Type ℓ} where
  pub lookup-put :
      (j k : String) (v : V) (m : List (String × V))
      → lookup j (put k v m) ≡ (if str_eq k j then some v else lookup j m)
  unfolding lookup put
  lookup-put j k v [] = refl
  lookup-put j k v ((i, w) ∷ m) =
      ground (arith, eq_iff k j, eq_iff i k, eq_iff i j, lookup-put j k v m)

  pub lookup-remove :
      (j k : String) (m : List (String × V))
      → lookup j (remove k m) ≡ (if str_eq k j then none else lookup j m)
  unfolding lookup remove
  lookup-remove j k [] = ground arith
  lookup-remove j k ((i, w) ∷ m) =
      ground (arith, eq_iff k j, eq_iff i k, eq_iff i j, lookup-remove j k m)

  pub put-IsMap : (k : String) (v : V) (m : List (String × V)) → IsMap m → IsMap (put k v m)
  unfolding put lookup
  put-IsMap k v [] h = ground arith
  put-IsMap k v ((i, w) ∷ m) h =
      ground (arith, eq_iff k i, eq_iff i k, lookup-put i k v m, put-IsMap k v m)

  pub remove-IsMap : (k : String) (m : List (String × V)) → IsMap m → IsMap (remove k m)
  unfolding remove
  remove-IsMap k [] h = tt
  remove-IsMap k ((i, w) ∷ m) h =
      ground (arith, eq_iff k i, eq_iff i k, lookup-remove i k m, remove-IsMap k m)

  -- A key is listed exactly if it has an entry.
  pub Has-keys : (k : String) (m : List (String × V)) → has k m ≡ true → Has k (keys m)
  unfolding lookup keys
  Has-keys k ((i, w) ∷ m) h = ground (arith, eq_iff i k, Has-keys k m)
  Has-keys k [] h = cc

  pub has-keys : (k : String) (m : List (String × V)) → Has k (keys m) → has k m ≡ true
  unfolding lookup keys
  has-keys k ((i, w) ∷ m) h = ground (arith, eq_iff i k, has-keys k m)
  has-keys k [] h = absurd h

-- The set that `add_keys` builds holds the old keys and those of the map.
pub has-add_keys {ℓ} :
    {V : Type ℓ} (k : String) (m : List (String × V)) (set : List (String × Unit {0}))
    → (has k (add_keys m set) ≡ true) ↔ ((has k m ≡ true) ⊎ (has k set ≡ true))
unfolding add_keys lookup
has-add_keys k [] set = (λ h. inr h, λ h. ground arith)
has-add_keys k ((i, w) ∷ m) set =
    let (to, fro) = has-add_keys k m (put i tt set) in
    (
      λ h. ground (arith, to h, lookup-put k i tt set),
      λ h. fro (ground (arith, lookup-put k i tt set)),
    )

pub member-keys {ℓ} :
    {V : Type ℓ} (k : String) (m : List (String × V)) → member k (keys m) ≡ has k m
unfolding keys lookup
member-keys k [] = refl
member-keys k ((j, v) ∷ m) = ground (arith, member-keys k m)

-- Each key of a map is listed once.
pub count-keys {ℓ} :
    {V : Type ℓ} (k : String) (m : List (String × V))
    → IsMap m
    → count k (keys m) ≡ (if has k m then 1 else 0)
unfolding keys lookup count
count-keys k [] h = refl
count-keys k ((j, v) ∷ m) h = ground (arith, count-keys k m h.1, eq_iff j k)

pub length-keys {ℓ} : {V : Type ℓ} (m : List (String × V)) → length (keys m) ≡ length m
unfolding keys
length-keys [] = refl
length-keys ((j, v) ∷ m) = ap suc (length-keys m)
