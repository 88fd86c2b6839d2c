-- ===== src/Base/Counts.antt =====
-- Lists of texts compared by how often each text stands in them.
use Prim.Native.String.{String}
use Prim.Native.Nat.{◌+◌, ◌≤◌, ◌<◌}
use mathlib.Core.Path.{◌≡◌, refl}
use mathlib.Core.List.{List, [], ◌∷◌, ◌++◌}
use native.Mathlib.Decide.{dec_lt}
use native.Mathlib.Omega.{arith}
use text.Mathlib.Text.{◌==◌ as str_eq}
use text.Mathlib.TextEquality.{eq_iff}
use preflight.Base.Tests.{ltb, if◌then◌else◌}
use preflight.Base.Lists.{length, count, member}

pub count-append : (a : String) (xs ys : List String) → count a (xs ++ ys) ≡ count a xs + count a ys
unfolding count
count-append a [] ys = omega arith
count-append a (x ∷ xs) ys = omega (arith, count-append a xs ys)

pub member-count : (a : String) (xs : List String) → member a xs ≡ ltb 0 (count a xs)
unfolding count
member-count a [] = refl
member-count a (x ∷ xs) = ground (arith, member-count a xs)

-- A list without the first occurrence of a text.
without : String → List String → List String
without a [] = []
without a (x ∷ xs) = let rest = without a xs in if str_eq x a then xs else x ∷ rest

count-without :
    (a b : String) (xs : List String)
    → 0 < count a xs
    → count b (without a xs) + (if str_eq a b then 1 else 0) ≡ count b xs
unfolding without count
count-without a b [] h = omega arith
count-without a b (x ∷ xs) h =
    ground (arith, eq_iff x a, eq_iff x b, eq_iff a b, count-without a b xs)

length-without :
    (a : String) (xs : List String) → 0 < count a xs → length (without a xs) + 1 ≡ length xs
unfolding without count
length-without a [] h = omega arith
length-without a (x ∷ xs) h = ground (arith, length-without a xs)

-- A list that holds nothing more often than another is no longer.
pub length-le_of_count :
    (xs ys : List String) → ((a : String) → count a xs ≤ count a ys) → length xs ≤ length ys
unfolding count
length-le_of_count [] ys h = omega arith
length-le_of_count (x ∷ xs) ys h =
    let here : 0 < count x ys = ground (arith, h x, eq_iff x x) in
    let rest =
      length-le_of_count xs (without x ys) λ a. ground (arith, h a, count-without x a ys here) in
    omega (arith, rest, length-without x ys here)

-- If such a list is shorter, it lacks some text of the other.
pub missing_of_count :
    (ys xs : List String)
    → ((a : String) → count a xs ≤ count a ys)
    → length xs < length ys
    → (a : String) × (count a xs < count a ys)
unfolding count
missing_of_count [] xs h lt = absurd (omega arith)
missing_of_count (y ∷ ys) xs h lt = elim (dec_lt 0 (count y xs)) [
  | yes here ↦
      let (a, less) =
        missing_of_count ys (without y xs) (λ a. ground (arith, h a, count-without y a xs here))
          (omega (arith, length-without y xs here)) in
      (a, ground (arith, count-without y a xs here))
  | no absent ↦ (y, ground (arith, eq_iff y y))
]

-- If such a list is as long, it holds everything as often.
pub count_of_length :
    (xs ys : List String)
    → ((a : String) → count a xs ≤ count a ys)
    → length xs ≡ length ys
    → (a : String) → count a xs ≡ count a ys
unfolding count
count_of_length [] [] h e a = refl
count_of_length [] (y ∷ ys) h e a = absurd (omega arith)
count_of_length (x ∷ xs) ys h e a =
    let here : 0 < count x ys = ground (arith, h x, eq_iff x x) in
    let rest =
      count_of_length xs (without x ys) (λ b. ground (arith, h b, count-without x b ys here))
        (omega (arith, length-without x ys here)) a in
    ground (arith, rest, count-without x a ys here)
