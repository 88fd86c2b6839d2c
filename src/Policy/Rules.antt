-- ===== src/Policy/Rules.antt =====
-- The first rule that matches decides.
use preflight.Base.{
  String, All, Bool, Bool-cases, List, Option, [], ap, arith, eq_iff, false, inl, inr, none, refl,
  some, str_eq, sym, true, ◌++◌, ◌↔◌, ◌∙◌, ◌∷◌, ◌≡◌,
}
use preflight.Policy.{
  Policy, Rule, Violation, check_rules, check_value, matches_rule, or_next, violation_of,
}

abbrev pub all_rules : List Policy → List Rule
all_rules [] = []
all_rules (p ∷ ps) = p.rules ++ all_rules ps

-- The answer of a list of rules, where none is the default.
abbrev answer_of : Option (Option Violation) → Option Violation
answer_of none = none
answer_of (some answer) = answer

module _ (glob : String → String → Option Bool) where
  -- A rule matches, and none in front of it does.
  abbrev pub IsFirst : String → Rule → List Rule → Type 0
  IsFirst value rule rules =
      (before : List Rule) × (after : List Rule) × (rules ≡ before ++ rule ∷ after)
      × All (λ r. matches_rule glob value r ≡ false) before
      × (matches_rule glob value rule ≡ true)

  check_rules-append :
      (value : String) (rs ts : List Rule)
      → check_rules glob value (rs ++ ts)
        ≡ (elim (check_rules glob value rs) [ none ↦ check_rules glob value ts | some a ↦ some a ])
  unfolding check_rules
  check_rules-append value [] ts = refl
  check_rules-append value (r ∷ rs) ts = elim (Bool-cases (matches_rule glob value r)) [
    | inl hit ↦ rw hit refl
    | inr miss ↦ rw miss (check_rules-append value rs ts)
  ]

  check_value-rules :
      (ps : List Policy) (value : String)
      → check_value glob ps value ≡ answer_of (check_rules glob value (all_rules ps))
  unfolding check_value check_rules
  check_value-rules [] value = refl
  check_value-rules (p ∷ ps) value =
      rw (check_rules-append value p.rules (all_rules ps), check_value-rules ps value)
        (or_next_lem (check_rules glob value p.rules))
    where
      or_next_lem :
          (o : Option (Option Violation))
          → or_next o (answer_of (check_rules glob value (all_rules ps)))
            ≡ answer_of (elim o [ none ↦ check_rules glob value (all_rules ps) | some a ↦ some a ])
      or_next_lem none = refl
      or_next_lem (some a) = refl

  denied_to :
      (value : String) (v : Violation) (rules : List Rule)
      → answer_of (check_rules glob value rules) ≡ some v
      → (rule : Rule) × IsFirst value rule rules
        × (rule.action ≡ "deny")
        × (v ≡ violation_of value rule)
  unfolding check_rules
  denied_to value v [] e = cc
  denied_to value v (r ∷ rs) e = elim (Bool-cases (matches_rule glob value r)) [
    | inr miss ↦
        let (rule, (before, after, split, misses, hit), deny, same) =
          denied_to value v rs (rw miss at e) in
        (rule, (r ∷ before, after, ap (λ l. r ∷ l) split, (miss, misses), hit), deny, same)
    | inl hit ↦ elim (Bool-cases (str_eq r.action "deny")) [
      | inl deny ↦ (
        r,
        ([], rs, refl, tt, hit),
        (eq_iff r.action "deny").0 deny,
        ground (arith, e, hit, deny),
      )
      | inr other ↦ ground (arith, e, hit, other)
    ]
  ]

  denied_from :
      (value : String) (rules before after : List Rule) (rule : Rule)
      → rules ≡ before ++ rule ∷ after
      → All (λ r. matches_rule glob value r ≡ false) before
      → matches_rule glob value rule ≡ true
      → rule.action ≡ "deny"
      → answer_of (check_rules glob value rules) ≡ some (violation_of value rule)
  unfolding check_rules
  denied_from value rules [] after rule split misses hit deny = rw (split, hit, deny) refl
  denied_from value rules (r ∷ before) after rule split misses hit deny =
      rw (split, misses.0)
        (denied_from value (before ++ rule ∷ after) before after rule refl misses.1 hit deny)

  -- A value is reported as a violation exactly if the first rule, of all policies in their order,
  -- that matches it denies; the report names that rule.
  pub check_value_iff :
      (ps : List Policy) (value : String) (v : Violation)
      → (check_value glob ps value ≡ some v) ↔ (
          (rule : Rule) × IsFirst value rule (all_rules ps)
          × (rule.action ≡ "deny")
          × (v ≡ violation_of value rule))
  check_value_iff ps value v = rw (check_value-rules ps value) (
    denied_to value v (all_rules ps),
    λ (rule, (before, after, split, misses, hit), deny, same).
        denied_from value (all_rules ps) before after rule split misses hit deny
        ∙ ap some (sym same),
  )
