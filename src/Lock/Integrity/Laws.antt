-- ===== src/Lock/Integrity/Laws.antt =====
-- What a checked hash is, and its text.
use text.Mathlib.TextLemmas.{nil-append, cons-append}
use preflight.Base.{
  String, Bool-cases, Option, arith, contains_char, cut, cut-append, eq_iff, false, inl, inr, none,
  refl, returns, some, str_eq, ℕ, ◌≡◌, ◌≢◌, cut_full, subst, sym,
}
use preflight.Lock.Integrity.{
  Integrity, hash_length, new_integrity, new_integrity_of, parse_integrity, parse_integrity_parts,
  show_integrity,
}

-- What `NewIntegrity` has accepted.
abbrev pub IsIntegrity : Integrity → Type 0
IsIntegrity i = new_integrity i.algorithm i.hash ≡ returns i

accepted :
    (o : Option ℕ) (a h : String) (i : Integrity)
    → new_integrity_of o a h ≡ returns i
    → (i.algorithm ≡ a) × (i.hash ≡ h) × (o ≢ none) × (str_eq h "" ≡ false)
unfolding new_integrity_of
accepted o a h i e = ground arith

pub new_integrity-IsIntegrity :
    (a h : String) (i : Integrity) → new_integrity a h ≡ returns i → IsIntegrity i
unfolding new_integrity
new_integrity-IsIntegrity a h i e =
    let (p, q, _, _) = accepted (hash_length a) a h i e in
    subst (λ (b : String). new_integrity b i.hash ≡ returns i) (sym p)
      (subst (λ (k : String). new_integrity a k ≡ returns i) (sym q) e)

-- The names of the algorithms have no colon.
hash_length-colon :
    (a : String) → hash_length a ≢ none → (contains_char b':' a ≡ false) × (str_eq a "" ≡ false)
hash_length-colon a h = elim (Bool-cases (str_eq a "sha256")) [
  | inl e ↦ rw ((eq_iff a "sha256").0 e) (refl, refl)
  | inr ne ↦ elim (Bool-cases (str_eq a "sha512")) [
    | inl e ↦ rw ((eq_iff a "sha512").0 e) (refl, refl)
    | inr none_of ↦ absurd (h (rw (ne, none_of) refl))
  ]
]

-- A hash that is accepted is printed and read as itself.
pub parse-show_integrity :
    (i : Integrity) → IsIntegrity i → parse_integrity (show_integrity i) ≡ returns i
unfolding new_integrity parse_integrity show_integrity parse_integrity_parts
parse-show_integrity i e =
    let (_, _, known, filled) = accepted (hash_length i.algorithm) i.algorithm i.hash i e in
    let (plain, named) = hash_length-colon i.algorithm known in
    let pieces : cut b':' (show_integrity i) ≡ some (i.algorithm, i.hash) =
      rw (cons-append, nil-append) (cut-append b':' _ i.algorithm i.hash refl plain) in
    rw (cut_full b':' (show_integrity i) _ pieces, pieces) (rw (named, filled) e)
