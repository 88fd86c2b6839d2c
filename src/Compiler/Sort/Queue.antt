-- ===== src/Compiler/Sort/Queue.antt =====
-- Insertion behind the front of the queue.
use preflight.Base.{
  List, String, [], ap, arith, binary_search, count, count-append, drop, false, if◌then◌else◌,
  length, length-append, ltb, str_eq, suc, take, zero, ℕ, ◌++◌, ◌+◌, ◌-◌, ◌∷◌, ◌≡◌,
}
use native.Mathlib.Nat.{suc-add}
use mathlib.Core.List.{append_assoc}
use preflight.Compiler.Sort.{insert_sorted, at_or_after}

take-append : (p r : List String) (n : ℕ) → take (length p + n) (p ++ r) ≡ p ++ take n r
take-append [] r n = ap (λ k. take k r) (omega arith)
take-append (x ∷ p) r n = rw suc-add (ap (λ l. x ∷ l) (take-append p r n))

drop-append : (p r : List String) (n : ℕ) → drop (length p + n) (p ++ r) ≡ drop n r
drop-append [] r n = ap (λ k. drop k r) (omega arith)
drop-append (x ∷ p) r n = rw suc-add (drop-append p r n)

count-take-drop :
    (b : String) (n : ℕ) (r : List String) → count b (take n r) + count b (drop n r) ≡ count b r
unfolding count
count-take-drop b zero r = omega arith
count-take-drop b (suc n) [] = omega arith
count-take-drop b (suc n) (x ∷ r) = omega (arith, count-take-drop b n r)

-- The new entry goes somewhere behind the first `start` entries.
pub insert_sorted_lem :
    (p r : List String) (id : String)
    → (r' : List String) × (insert_sorted (p ++ r) (length p) id ≡ p ++ r')
      × ((b : String) → count b r' ≡ count b r + (if str_eq id b then 1 else 0))
unfolding insert_sorted
insert_sorted_lem p r id =
    let queue = p ++ r in
    let n = binary_search (length queue - length p) (at_or_after queue (length p) id) in
    let long : ltb (length queue) (length p) ≡ false = ground (arith, length-append p r) in
    (
      take n r ++ id ∷ drop n r,
      rw long (rw (take-append, drop-append) (append_assoc p (take n r) (id ∷ drop n r))),
      λ b.
          unfold count in
          ground (arith, count-append b (take n r) (id ∷ drop n r), count-take-drop b n r),
    )
