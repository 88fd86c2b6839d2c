-- ===== src/Base/Text.antt =====
-- Go's `strings` on texts that are walked: `SplitN(s, sep, 2)`, `Split`, `Join`, `TrimSuffix`, for
-- separators of one character, which is given by its number.
use Prim.Native.Char.{Char, code}
use Prim.Native.String.{String, ◌++◌ as str_append}
use text.Mathlib.Text.{◌==◌ as str_eq}
use text.Mathlib.TextEquality.{eq_iff, codes_equal}
use text.Mathlib.TextLemmas.{nil-append, cons-append}
use Prim.Native.Nat.{ℕ}
use mathlib.Core.Path.{◌≡◌, refl, ap, subst}
use mathlib.Core.Bool.{Bool, true, false, ◌||◌}
use mathlib.Core.Option.{Option, none, some}
use mathlib.Core.List.{List, [], ◌∷◌}
use native.Mathlib.Omega.{arith}
use mathlib.Core.Logic.{inl, inr}
use preflight.Base.Tests.{Bool-cases, ◌==◌, if◌then◌else◌}
use preflight.Base.Lists.{All}

abbrev pub contains_char : ℕ → String → Bool
contains_char b String.[] = false
contains_char b (String.◌∷◌ c s) = (code c == b) || contains_char b s

abbrev cons_first : Char → Option (String × String) → Option (String × String)
cons_first c none = none
cons_first c (some (s, t)) = some (String.◌∷◌ c s, t)

-- `strings.SplitN(s, sep, 2)`: `none` where the separator is not there.
unfoldable pub cut : ℕ → String → Option (String × String)
cut b String.[] = none
cut b (String.◌∷◌ c s) =
    let rest = cut b s in if code c == b then some ("", s) else cons_first c rest

abbrev cons_line : Char → List String → List String
cons_line c [] = String.◌∷◌ c String.[] ∷ []
cons_line c (l ∷ ls) = String.◌∷◌ c l ∷ ls

-- `strings.Split(s, sep)`
unfoldable pub split_on : ℕ → String → List String
split_on b String.[] = "" ∷ []
split_on b (String.◌∷◌ c s) =
    let rest = split_on b s in if code c == b then "" ∷ rest else cons_line c rest

-- `strings.Join(lines, sep)`
unfoldable pub join : String → List String → String
join sep [] = ""
join sep (l ∷ []) = l
join sep (l ∷ k ∷ ls) = str_append l (str_append sep (join sep (k ∷ ls)))

-- `strings.TrimSuffix(s, sep)`
unfoldable pub trim_suffix : ℕ → String → String
trim_suffix b String.[] = ""
trim_suffix b (String.◌∷◌ c String.[]) = if code c == b then "" else String.◌∷◌ c String.[]
trim_suffix b (String.◌∷◌ c (String.◌∷◌ d s)) =
    let rest = trim_suffix b (String.◌∷◌ d s) in String.◌∷◌ c rest

or_false : (a b : Bool) → (a || b) ≡ false → (a ≡ false) × (b ≡ false)
or_false a b h = (ground (arith, h), ground (arith, h))

pub cut-append :
    (b : ℕ) (c : Char) (s t : String)
    → (code c == b) ≡ true
    → contains_char b s ≡ false
    → cut b (str_append s (String.◌∷◌ c t)) ≡ some (s, t)
unfolding cut
cut-append b c String.[] t e h = rw (nil-append, e) refl
cut-append b c (String.◌∷◌ d s) t e h =
    let (here, later) = or_false (code d == b) (contains_char b s) h in
    rw (cons-append, here, cut-append b c s t e later) refl

cons_line-lacks :
    (b : ℕ) (c : Char) (ls : List String)
    → (code c == b) ≡ false
    → All (λ l. contains_char b l ≡ false) ls
    → All (λ l. contains_char b l ≡ false) (cons_line c ls)
cons_line-lacks b c [] e h = (rw e refl, tt)
cons_line-lacks b c (l ∷ ls) e h = (rw e h.0, h.1)

-- No line of a split holds the separator.
pub split_on-lacks : (b : ℕ) (s : String) → All (λ l. contains_char b l ≡ false) (split_on b s)
unfolding split_on
split_on-lacks b String.[] = (refl, tt)
split_on-lacks b (String.◌∷◌ c s) = elim (Bool-cases (code c == b)) [
  | inl here ↦ rw here (refl, split_on-lacks b s)
  | inr other ↦ rw other (cons_line-lacks b c (split_on b s) other (split_on-lacks b s))
]

cons_line-cons :
    (c : Char) (ls : List String) → (k : String) × (ks : List String) × (cons_line c ls ≡ k ∷ ks)
cons_line-cons c [] = (String.◌∷◌ c String.[], [], refl)
cons_line-cons c (l ∷ ls) = (String.◌∷◌ c l, ls, refl)

-- A split has at least one line.
pub split_on-cons :
    (b : ℕ) (s : String) → (l : String) × (ls : List String) × (split_on b s ≡ l ∷ ls)
unfolding split_on
split_on-cons b String.[] = ("", [], refl)
split_on-cons b (String.◌∷◌ c s) = elim (Bool-cases (code c == b)) [
  | inl here ↦ rw here ("", split_on b s, refl)
  | inr other ↦ rw other (cons_line-cons c (split_on b s))
]

split_on-append :
    (b : ℕ) (c : Char) (s t : String)
    → (code c == b) ≡ true
    → contains_char b s ≡ false
    → split_on b (str_append s (String.◌∷◌ c t)) ≡ s ∷ split_on b t
unfolding split_on
split_on-append b c String.[] t e h = rw (nil-append, e) refl
split_on-append b c (String.◌∷◌ d s) t e h =
    let (here, later) = or_false (code d == b) (contains_char b s) h in
    rw (cons-append, here, split_on-append b c s t e later) refl

split_on-line : (b : ℕ) (s : String) → contains_char b s ≡ false → split_on b s ≡ s ∷ []
unfolding split_on
split_on-line b String.[] h = refl
split_on-line b (String.◌∷◌ d s) h =
    let (here, later) = or_false (code d == b) (contains_char b s) h in
    rw (here, split_on-line b s later) refl

-- Joining lines that do not hold the separator, and splitting again.
pub split_on-join :
    (b : ℕ) (c : Char) (l : String) (ls : List String)
    → (code c == b) ≡ true
    → All (λ k. contains_char b k ≡ false) (l ∷ ls)
    → split_on b (join (String.◌∷◌ c String.[]) (l ∷ ls)) ≡ l ∷ ls
unfolding join
split_on-join b c l [] e h = split_on-line b l h.0
split_on-join b c l (k ∷ ls) e h =
    rw (cons-append, nil-append, split_on-append b c l _ e h.0, split_on-join b c k ls e h.1) refl

pub trim_suffix-append :
    (b : ℕ) (c : Char) (s : String)
    → (code c == b) ≡ true
    → trim_suffix b (str_append s (String.◌∷◌ c String.[])) ≡ s
unfolding trim_suffix
trim_suffix-append b c String.[] e = rw (nil-append, e) refl
trim_suffix-append b c (String.◌∷◌ d String.[]) e = rw (cons-append, nil-append, e) refl
trim_suffix-append b c (String.◌∷◌ d (String.◌∷◌ f s)) e =
    let rest = trim_suffix-append b c (String.◌∷◌ f s) e in
    rw (cons-append, cons-append) (ap (String.◌∷◌ d) (rw cons-append at rest))

-- A text that holds a separator is not empty.
pub cut_full :
    (b : ℕ) (s : String) (parts : String × String) → cut b s ≡ some parts → str_eq s "" ≡ false
unfolding cut
cut_full b s parts h = elim (Bool-cases (str_eq s "")) [
  | inl e ↦ absurd (empty_lacks (subst (λ t. cut b t ≡ some parts) ((eq_iff s "").0 e) h))
  | inr full ↦ full
]
  where
    empty_lacks : none ≡ some parts → ⊥
    empty_lacks e = cc

cons_first_lem :
    (b : ℕ) (d e : Char) (o : Option (String × String)) (s l r : String)
    → ((x y : String)
        → o ≡ some (x, y)
        → (s ≡ str_append x (String.◌∷◌ e y)) × (contains_char b x ≡ false))
    → (code d == b) ≡ false
    → cons_first d o ≡ some (l, r)
    → (String.◌∷◌ d s ≡ str_append l (String.◌∷◌ e r)) × (contains_char b l ≡ false)
cons_first_lem b d e none s l r ih other h = cc
cons_first_lem b d e (some (x, y)) s l r ih other h =
    let first : String.◌∷◌ d x ≡ l = cc in
    let second : y ≡ r = cc in
    let (whole, lacks) = ih x y refl in
    subst (λ k. (String.◌∷◌ d s ≡ str_append k (String.◌∷◌ e r)) × (contains_char b k ≡ false))
      first
      (subst
        (λ t.
          (String.◌∷◌ d s ≡ str_append (String.◌∷◌ d x) (String.◌∷◌ e t))
          × ((code d == b) || contains_char b x ≡ false))
        second (rw cons-append (ap (String.◌∷◌ d) whole), rw other lacks))

-- What a text is whose first separator is found.
pub cut_inverse :
    (e : Char) (s l r : String)
    → cut (code e) s ≡ some (l, r)
    → (s ≡ str_append l (String.◌∷◌ e r)) × (contains_char (code e) l ≡ false)
unfolding cut
cut_inverse e String.[] l r h = cc
cut_inverse e (String.◌∷◌ d s) l r h = elim (Bool-cases (code d == code e)) [
  | inl here ↦
      let same : d ≡ e = codes_equal d e (ground (arith, here)) in
      let found : ◌≡◌ {A = Option (String × String)} (some ("", s)) (some (l, r)) = rw here at h in
      let first : "" ≡ l = cc in
      let second : s ≡ r = cc in
      subst
        (λ k. (String.◌∷◌ d s ≡ str_append k (String.◌∷◌ e r)) × (contains_char (code e) k ≡ false))
        first
        (subst (λ t. (String.◌∷◌ d s ≡ str_append "" (String.◌∷◌ e t)) × (false ≡ false)) second
          (rw (nil-append, same) refl, refl))
  | inr other ↦
      cons_first_lem (code e) d e (cut (code e) s) s l r (λ x y. cut_inverse e s x y) other
        (rw other at h)
]
