-- ===== src/GoMap/Unmarked.antt =====
-- How many keys of a list have no entry in a map: the measure of a search that marks what it meets.
use preflight.Base.{
  String, Has, List, [], ap, arith, eq_iff, false, if◌then◌else◌, inl, inr, length, true, ℕ, ◌+◌,
  ◌<◌, ◌∷◌, ◌≡◌, ◌≤◌,
}
use preflight.GoMap.{put, has}
use preflight.GoMap.Laws.{lookup-put}

module _ {ℓ} {V : Type ℓ} where
  unfoldable pub unmarked : List String → List (String × V) → ℕ
  unmarked [] m = 0
  unmarked (k ∷ ks) m = (if has k m then 0 else 1) + unmarked ks m

  -- One map has an entry wherever another has.
  abbrev pub Extends : List (String × V) → List (String × V) → Type 0
  Extends m m' = (k : String) → has k m ≡ true → has k m' ≡ true

  pub unmarked-Extends :
      (ks : List String) (m m' : List (String × V)) → Extends m m' → unmarked ks m' ≤ unmarked ks m
  unfolding unmarked
  unmarked-Extends [] m m' h = omega arith
  unmarked-Extends (k ∷ ks) m m' h = ground (arith, h k, unmarked-Extends ks m m' h)

  pub Extends-put : (k : String) (v : V) (m : List (String × V)) → Extends m (put k v m)
  Extends-put k v m j h = ground (arith, h, lookup-put j k v m)

  -- A mark on a listed key makes the measure less.
  pub unmarked-put :
      (k : String) (v : V) (ks : List String) (m : List (String × V))
      → Has k ks
      → has k m ≡ false
      → unmarked ks (put k v m) < unmarked ks m
  unfolding unmarked
  unmarked-put k v [] m h fresh = absurd h
  unmarked-put k v (j ∷ ks) m (inl e) fresh = ground (
    arith,
    e,
    fresh,
    eq_iff k j,
    lookup-put j k v m,
    ap (λ i. has i m) e,
    unmarked-Extends ks m (put k v m) (Extends-put k v m),
  )
  unmarked-put k v (j ∷ ks) m (inr h) fresh =
      ground (arith, lookup-put j k v m, unmarked-put k v ks m h fresh, eq_iff k j)

  pub unmarked_le : (ks : List String) (m : List (String × V)) → unmarked ks m ≤ length ks
  unfolding unmarked
  unmarked_le [] m = omega arith
  unmarked_le (k ∷ ks) m = ground (arith, unmarked_le ks m)
