-- ===== src/Policy/Examples.antt =====
-- A policy with one exception: the theorems at concrete values.
use preflight.Base.{
  String, Bool, Option, [], contains_char, if◌then◌else◌, none, not, refl, some, str_eq, true, ◌↔◌,
  ◌∷◌, ◌≡◌, ◌⊎◌,
}
use preflight.Policy.{
  Policy, Rule, Violation, allow_each, check_rules, check_value, colon_prefix, default_deny_all,
  evaluate, evaluate_into, match_glob, matches_rule, plain_rule, replace_stars, violation_of,
}
use preflight.Policy.Rules.{all_rules, IsFirst, check_value_iff}
use preflight.Policy.Defaults.{StarsStop, any_exception, check_value-default_deny_all}

-- A glob that knows a single star, and texts.
abbrev glob : String → String → Option Bool
glob pattern value =
    if str_eq pattern "*"
    then some (not (contains_char b'/' value))
    else some (str_eq pattern value)

stops : StarsStop glob
stops value = refl

abbrev only_git : Policy
only_git = default_deny_all ("brew:install:git" ∷ [])

abbrev vim : Violation
vim = violation_of "apt:install:vim" (plain_rule "*" "deny" "default deny")

check_value_iff_example : (check_value glob (only_git ∷ []) "apt:install:vim" ≡ some vim) ↔ (
    (rule : Rule) × IsFirst glob "apt:install:vim" rule (all_rules (only_git ∷ []))
    × (rule.action ≡ "deny")
    × (vim ≡ violation_of "apt:install:vim" rule))
check_value_iff_example = check_value_iff glob (only_git ∷ []) "apt:install:vim" vim

check_value-default_deny_all_example :
    (check_value glob (default_deny_all ("brew:install:git" ∷ []) ∷ []) "brew:tap:homebrew/cask"
      ≡ none)
    ↔ ((any_exception glob "brew:tap:homebrew/cask" ("brew:install:git" ∷ []) ≡ true)
        ⊎ (contains_char b'/' "brew:tap:homebrew/cask" ≡ true))
check_value-default_deny_all_example =
    check_value-default_deny_all glob stops ("brew:install:git" ∷ []) "brew:tap:homebrew/cask"

-- The tap is allowed, although it is no exception.
slashed :
    (evaluate glob (only_git ∷ []) ("brew:tap:homebrew/cask" ∷ "apt:install:vim" ∷ [])).allowed
    ≡ "brew:tap:homebrew/cask" ∷ []
unfolding evaluate evaluate_into check_value check_rules matches_rule match_glob default_deny_all
    allow_each replace_stars colon_prefix
slashed = refl
