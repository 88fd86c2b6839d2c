-- ===== src/Base/Strings.antt =====
-- Go's order of strings, `sort.Strings` and `sort.Search`.
use Prim.Native.String.{String, compare}
use Prim.Native.Nat.{ℕ, zero, suc, ◌+◌, ◌/◌, ◌≤◌, Ordering}
use mathlib.Core.Path.{◌≡◌, refl}
use mathlib.Core.Bool.{Bool, true, false}
use mathlib.Core.List.{List, [], ◌∷◌}
use native.Mathlib.Omega.{arith}
use preflight.Base.Tests.{ltb, if◌then◌else◌}
use preflight.Base.Lists.{count}

-- `s <= t`: by bytes, which for UTF-8 is the order of the code points.
unfoldable pub str_leb : String → String → Bool
str_leb s t = elim (compare s t) [ Ordering.gt ↦ false | _ ↦ true ]

insert : String → List String → List String
insert s [] = s ∷ []
insert s (t ∷ ts) = if str_leb s t then s ∷ t ∷ ts else t ∷ insert s ts

-- `sort.Strings`: any correct sort gives the same list, since equal strings are the same.
unfoldable pub sort_strings : List String → List String
unfolding insert str_leb
sort_strings [] = []
sort_strings (s ∷ ss) = insert s (sort_strings ss)

count-insert : (a s : String) (ss : List String) → count a (insert s ss) ≡ count a (s ∷ ss)
unfolding insert count
count-insert a s [] = refl
count-insert a s (t ∷ ts) = ground (arith, count-insert a s ts)

pub count-sort_strings : (a : String) (ss : List String) → count a (sort_strings ss) ≡ count a ss
unfolding sort_strings count
count-sort_strings a [] = refl
count-sort_strings a (s ∷ ss) =
    ground (arith, count-insert a s (sort_strings ss), count-sort_strings a ss)

-- The loop of `sort.Search`: `for i < j { h := (i + j) / 2; if !f(h) { i = h + 1 } else { j = h } }`.
-- Each round shrinks `j - i`, so the fuel `n` is enough.
unfoldable pub search_loop : ℕ → (ℕ → Bool) → ℕ → ℕ → ℕ
search_loop zero f i j = i
search_loop (suc fuel) f i j =
    let h = (i + j) / 2 in
    let above = search_loop fuel f (h + 1) j in
    let below = search_loop fuel f i h in if ltb i j then (if f h then below else above) else i

unfoldable pub binary_search : ℕ → (ℕ → Bool) → ℕ
unfolding search_loop
binary_search n f = search_loop n f 0 n

search_loop_le : (fuel : ℕ) (f : ℕ → Bool) (i j : ℕ) → i ≤ j → search_loop fuel f i j ≤ j
unfolding search_loop
search_loop_le zero f i j h = h
search_loop_le (suc fuel) f i j h =
    ground (arith, search_loop_le fuel f ((i + j) / 2 + 1) j, search_loop_le fuel f i ((i + j) / 2))

pub binary_search_le : (n : ℕ) (f : ℕ → Bool) → binary_search n f ≤ n
unfolding binary_search
binary_search_le n f = search_loop_le n f 0 n (omega arith)
