-- ===== src/GoMap/Rebuild.antt =====
-- Maps that are built again, entry by entry, from the entries of a map.
use preflight.Base.{
  String, Bool-cases, List, [], arith, eq_iff, false, inl, inr, refl, str_eq, ◌++◌, ◌∷◌, ◌≡◌,
}
use preflight.GoMap.{put, has, lookup}

module _ {ℓ κ} {V : Type ℓ} {W : Type κ} where
  -- No key of the first map has an entry in the second.
  abbrev pub IsFresh : List (String × V) → List (String × W) → Type 0
  IsFresh [] a = Unit
  IsFresh ((k, v) ∷ m) a = (has k a ≡ false) × IsFresh m a

pub IsFresh-nil {ℓ κ} : {V : Type ℓ} (W : Type κ) (m : List (String × V)) → IsFresh {W = W} m []
unfolding lookup
IsFresh-nil W [] = tt
IsFresh-nil W ((k, v) ∷ m) = (refl, IsFresh-nil W m)

module _ {ℓ} {V : Type ℓ} where
  pub put-fresh :
      (k : String) (v : V) (a : List (String × V)) → has k a ≡ false → put k v a ≡ a ++ (k, v) ∷ []
  unfolding put lookup
  put-fresh k v [] h = refl
  put-fresh k v ((j, w) ∷ a) h = elim (Bool-cases (str_eq j k)) [
    | inl e ↦ ground (arith, h)
    | inr ne ↦ let rest : has k a ≡ false = ground (arith, h) in rw (ne, put-fresh k v a rest) refl
  ]

  has-snoc :
      (j k : String) (v : V) (a : List (String × V))
      → has j a ≡ false
      → str_eq k j ≡ false
      → has j (a ++ (k, v) ∷ []) ≡ false
  unfolding lookup
  has-snoc j k v [] h ne = rw ne refl
  has-snoc j k v ((i, w) ∷ a) h ne = ground (arith, h, has-snoc j k v a)

  pub IsFresh-snoc {κ} :
      {W : Type κ} (k : String) (v : V) (m : List (String × W)) (a : List (String × V))
      → IsFresh m a
      → has k m ≡ false
      → IsFresh m (a ++ (k, v) ∷ [])
  unfolding lookup
  IsFresh-snoc k v [] a h absent = tt
  IsFresh-snoc k v ((j, w) ∷ m) a h absent =
      let other : str_eq k j ≡ false = ground (arith, absent, eq_iff k j, eq_iff j k) in
      let rest : has k m ≡ false = ground (arith, absent) in
      (has-snoc j k v a h.0 other, IsFresh-snoc k v m a h.1 rest)
