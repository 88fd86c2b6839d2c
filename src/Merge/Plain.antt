-- ===== src/Merge/Plain.antt =====
-- What the two loops over the lines do on lines that are not markers.
use mathlib.Core.List.{append-nil, append_assoc}
use preflight.Base.{
  String, All, List, [], length, refl, some, ℕ, ◌++◌, ◌+◌, ◌∷◌, ◌≡◌, Bool, arith, false, suc, true,
}
use preflight.Merge.{
  Conflict, Parsing, Resolution, Resolving, Section, add_line, in_base, in_ours, in_theirs, kind_of,
  no_section, parse_lines, plain, resolve_lines, split_lines,
}

abbrev pub IsPlain : String → Type 0
IsPlain l = kind_of l ≡ plain

-- No line of the text looks like a conflict marker.
abbrev pub IsQuiet : String → Type 0
IsQuiet s = All IsPlain (split_lines s)

abbrev pub add_lines : Section → List String → Conflict → Conflict
add_lines no_section xs c = c
add_lines in_ours xs c = record c { ours = c.ours ++ xs }
add_lines in_base xs c = record c { base = c.base ++ xs }
add_lines in_theirs xs c = record c { theirs = c.theirs ++ xs }

add_lines-nil : (sec : Section) (c : Conflict) → add_lines sec [] c ≡ c
add_lines-nil no_section c = refl
add_lines-nil in_ours c = rw append-nil
add_lines-nil in_base c = rw append-nil
add_lines-nil in_theirs c = rw append-nil

add_lines-cons :
    (sec : Section) (x : String) (xs : List String) (c : Conflict)
    → add_lines sec xs (add_line sec x c) ≡ add_lines sec (x ∷ xs) c
add_lines-cons no_section x xs c = refl
add_lines-cons in_ours x xs c = rw append_assoc
add_lines-cons in_base x xs c = rw append_assoc
add_lines-cons in_theirs x xs c = rw append_assoc

abbrev pub inside : List Conflict → Conflict → Section → Parsing
inside cs c sec = record { conflicts = cs; current = some c; section = sec }

add_zero : (i : ℕ) → i + 0 ≡ i
add_zero i = omega arith

add_suc : (i n : ℕ) → i + 1 + n ≡ i + suc n
add_suc i n = omega arith

pub parse_lines-plain :
    (i : ℕ) (xs ys : List String) (cs : List Conflict) (c : Conflict) (sec : Section)
    → All IsPlain xs
    → parse_lines i (xs ++ ys) (inside cs c sec)
      ≡ parse_lines (i + length xs) ys (inside cs (add_lines sec xs c) sec)
unfolding parse_lines
parse_lines-plain i [] ys cs c sec h = rw (add_zero i, add_lines-nil sec c) refl
parse_lines-plain i (x ∷ xs) ys cs c sec h =
    rw (parse_lines, h.0, ← add_lines-cons sec x xs c, ← add_suc i (length xs))
      (parse_lines-plain (i + 1) xs ys cs (add_line sec x c) sec h.1)

abbrev pub resolving : List String → Bool → Resolving
resolving out keeping = record { result = out; in_conflict = true; keeping = keeping }

abbrev pub kept : Bool → List String → List String
kept true xs = xs
kept false xs = []

pub resolve_lines-plain :
    (res : Resolution) (xs ys out : List String) (k : Bool)
    → All IsPlain xs
    → resolve_lines res (xs ++ ys) (resolving out k)
      ≡ resolve_lines res ys (resolving (out ++ kept k xs) k)
unfolding resolve_lines
resolve_lines-plain res [] ys out true h = rw append-nil refl
resolve_lines-plain res [] ys out false h = rw append-nil refl
resolve_lines-plain res (x ∷ xs) ys out true h =
    rw (resolve_lines, h.0, ← append_assoc out (x ∷ []) xs)
      (resolve_lines-plain res xs ys (out ++ x ∷ []) true h.1)
resolve_lines-plain res (x ∷ xs) ys out false h =
    rw (resolve_lines, h.0) (resolve_lines-plain res xs ys out false h.1)
