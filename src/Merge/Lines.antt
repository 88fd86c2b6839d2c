-- ===== src/Merge/Lines.antt =====
-- Splitting a text into lines, and joining them again.
use text.Mathlib.TextLemmas.{append-ne-nil_of_right_ne-nil}
use Prim.Native.String.{◌++◌ as str_append}
use preflight.Base.{
  String, All, Bool-cases, List, contains_char, eq_iff, false, inl, inr, join, refl, split_on-join,
  split_on-lacks, str_eq, trim_suffix, trim_suffix-append, ◌∷◌, ◌≡◌, [], ◌++◌,
}
use preflight.Merge.{split_lines, join_lines}

-- What every line of a split is.
abbrev pub IsLine : String → Type 0
IsLine l = contains_char b'\n' l ≡ false

pub IsLine-append : (xs ys : List String) → All IsLine xs → All IsLine ys → All IsLine (xs ++ ys)
IsLine-append [] ys h k = k
IsLine-append (x ∷ xs) ys h k = (h.0, IsLine-append xs ys h.1 k)

pub split_lines-IsLine : (s : String) → All IsLine (split_lines s)
unfolding split_lines
split_lines-IsLine s = elim (Bool-cases (str_eq s "")) [
  | inl empty ↦ rw empty tt
  | inr full ↦ rw full (split_on-lacks b'\n' (trim_suffix b'\n' s))
]

-- Lines that are joined are split into the same lines.
pub split_lines-join_lines :
    (l : String) (ls : List String)
    → All IsLine (l ∷ ls)
    → split_lines (join_lines (l ∷ ls)) ≡ l ∷ ls
unfolding split_lines join_lines
split_lines-join_lines l ls h =
    let text = join "\n" (l ∷ ls) in
    let full : str_eq (str_append text "\n") "" ≡ false =
      elim (Bool-cases (str_eq (str_append text "\n") "")) [
        | inl empty ↦ absurd (
            append-ne-nil_of_right_ne-nil text {t = "\n"} (λ e. cc)
              ((eq_iff (str_append text "\n") "").0 empty))
        | inr e ↦ e
      ] in
    rw (full, trim_suffix-append b'\n' _ text refl) (split_on-join b'\n' _ l ls refl h)
