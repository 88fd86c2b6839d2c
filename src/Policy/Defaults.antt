-- ===== src/Policy/Defaults.antt =====
-- What the policy denies that is meant to deny all but its exceptions.
use preflight.Base.{
  String, Bool, List, Option, [], contains_char, false, none, not, some, true, ◌++◌, ◌||◌, ◌↔◌, ◌∷◌,
  ◌≡◌, ◌⊎◌, Bool-cases, arith, inl, inr, refl,
}
use preflight.Policy.{
  allow_each, check_rules, check_value, colon_prefix, default_deny_all, match_glob, matches_rule,
  or_next, plain_rule, replace_stars,
}

-- A star of `filepath.Match` matches every text that has no slash.
abbrev pub StarsStop : (String → String → Option Bool) → Type 0
StarsStop glob = (value : String) → glob "*" value ≡ some (not (contains_char b'/' value))

-- One of the exceptions matches.
abbrev pub any_exception : (String → String → Option Bool) → String → List String → Bool
any_exception glob value [] = false
any_exception glob value (e ∷ es) = match_glob glob value e || any_exception glob value es

module _ (glob : String → String → Option Bool) (stars : StarsStop glob) where
  star_lem : (value : String) → match_glob glob value "*" ≡ not (contains_char b'/' value)
  unfolding match_glob replace_stars colon_prefix
  star_lem value = rw (stars value) (ground arith)

  no_cover : {A : Type 0} → (false ≡ true) ⊎ (false ≡ true) → A
  no_cover (inl e) = cc
  no_cover (inr e) = cc

  rules_lem :
      (value : String) (es : List String)
      → or_next
            (check_rules glob value (allow_each es ++ plain_rule "*" "deny" "default deny" ∷ []))
            none
          ≡ none
        ↔ ((any_exception glob value es ≡ true) ⊎ (contains_char b'/' value ≡ true))
  unfolding check_rules allow_each matches_rule
  rules_lem value [] = elim (Bool-cases (contains_char b'/' value)) [
    | inl slash ↦ rw (star_lem value, slash) (λ h. inr refl, λ h. refl)
    | inr plain ↦ rw (star_lem value, plain) (λ h. cc, λ h. no_cover h)
  ]
  rules_lem value (e ∷ es) = elim (Bool-cases (match_glob glob value e)) [
    | inl hit ↦ rw hit (λ h. inl refl, λ h. refl)
    | inr miss ↦ rw miss (rules_lem value es)
  ]

  -- If the star of filepath.Match matches exactly the texts that have no slash, the policy that
  -- denies all but its exceptions allows a value exactly if an exception matches it or it has a
  -- slash.
  pub check_value-default_deny_all :
      (exceptions : List String) (value : String)
      → (check_value glob (default_deny_all exceptions ∷ []) value ≡ none)
        ↔ ((any_exception glob value exceptions ≡ true) ⊎ (contains_char b'/' value ≡ true))
  unfolding check_value default_deny_all
  check_value-default_deny_all exceptions value = rules_lem value exceptions
