-- ===== src/Policy.antt =====
-- internal/domain/policy/policy.go: what the rules of an organisation deny. The function
-- `filepath.Match` is a parameter: `none` is its error for a malformed pattern.
pub mod Rules
pub mod Defaults
mod Examples
use preflight.GoMap.{is_some}
use Prim.Native.Char.{Char, code}
use text.Mathlib.Text.{starts_with, find?}
use preflight.Base.{
  String, Bool, List, Option, [], cut, false, if◌then◌else◌, none, not, some, str_eq, true, ◌&&◌,
  ◌++◌, ◌==◌, ◌||◌, ◌∷◌,
}

pub record Rule : Type 0 where
  pub pattern : String
  pub action : String
  pub message : String
  pub scope : String

pub record Policy : Type 0 where
  pub name : String
  pub description : String
  pub rules : List Rule

pub record Violation : Type 0 where
  pub step_id : String
  pub rule : Rule
  pub matched_value : String

pub record PolicyResult : Type 0 where
  pub violations : List Violation
  pub allowed : List String

-- `strings.ReplaceAll(pattern, "**", "*")`
unfoldable pub replace_stars : String → String
replace_stars String.[] = ""
replace_stars (String.◌∷◌ c String.[]) = String.◌∷◌ c String.[]
replace_stars (String.◌∷◌ c (String.◌∷◌ d s)) = elim (code c == b'*' && code d == b'*') [
  | true ↦ String.◌∷◌ c (replace_stars s)
  | false ↦ String.◌∷◌ c (replace_stars (String.◌∷◌ d s))
]

abbrev pub cons_char : Char → Option String → Option String
cons_char c none = none
cons_char c (some s) = some (String.◌∷◌ c s)

-- `strings.TrimSuffix(pattern, "*")` where the pattern ends in `:*`.
unfoldable pub colon_prefix : String → Option String
colon_prefix String.[] = none
colon_prefix (String.◌∷◌ c s) =
    let rest = colon_prefix s in
    if code c == b':' && str_eq s "*" then some ":" else cons_char c rest

abbrev pub is_match : Option Bool → Bool
is_match none = false
is_match (some b) = b

abbrev pub is_prefix : Option String → String → Bool
is_prefix none value = false
is_prefix (some prefix) value = starts_with value prefix

-- The first part of `strings.SplitN(value, ":", 2)`.
abbrev pub first_part : String → Option (String × String) → String
first_part value none = value
first_part value (some (provider, rest)) = provider

abbrev pub violation_of : String → Rule → Violation
violation_of value rule = record { step_id = value; rule = rule; matched_value = value }

abbrev pub or_next : Option (Option Violation) → Option Violation → Option Violation
or_next none next = next
or_next (some answer) next = answer

abbrev pub file_value : String → Option Violation → PolicyResult → PolicyResult
file_value value none e = record e { allowed = e.allowed ++ value ∷ [] }
file_value value (some b) e = record e { violations = e.violations ++ b ∷ [] }

module _ (glob : String → String → Option Bool) where
  abbrev pub match_rest : String → String → Option Bool → Bool
  match_rest value pattern none = false
  match_rest value pattern (some matched) =
      matched
      || ((is_some (find? pattern "**") && is_match (glob (replace_stars pattern) value))
          || is_prefix (colon_prefix pattern) value)

  unfoldable pub match_glob : String → String → Bool
  unfolding replace_stars colon_prefix
  match_glob value pattern = match_rest value pattern (glob pattern value)

  unfoldable pub matches_rule : String → Rule → Bool
  unfolding match_glob
  matches_rule value rule =
      if not (str_eq rule.scope "")
        && not (match_glob (first_part value (cut b':' value)) rule.scope)
      then false
      else match_glob value rule.pattern

  -- The inner loop: `none` where no rule matches, and else its answer.
  unfoldable pub check_rules : String → List Rule → Option (Option Violation)
  unfolding matches_rule
  check_rules value [] = none
  check_rules value (rule ∷ rules) =
      let rest = check_rules value rules in
      if matches_rule value rule
      then some (if str_eq rule.action "deny" then some (violation_of value rule) else none)
      else rest

  unfoldable pub check_value : List Policy → String → Option Violation
  unfolding check_rules
  check_value [] value = none
  check_value (p ∷ ps) value = or_next (check_rules value p.rules) (check_value ps value)

  unfoldable pub evaluate_into : List Policy → List String → PolicyResult → PolicyResult
  unfolding check_value
  evaluate_into ps [] e = e
  evaluate_into ps (v ∷ vs) e = evaluate_into ps vs (file_value v (check_value ps v) e)

  unfoldable pub evaluate : List Policy → List String → PolicyResult
  unfolding evaluate_into
  evaluate ps vs = evaluate_into ps vs (record { violations = []; allowed = [] })

abbrev pub plain_rule : String → String → String → Rule
plain_rule pattern action message = record {
  pattern = pattern;
  action = action;
  message = message;
  scope = "";
}

unfoldable pub allow_each : List String → List Rule
allow_each [] = []
allow_each (e ∷ es) = plain_rule e "allow" "explicitly allowed" ∷ allow_each es

unfoldable pub default_deny_all : List String → Policy
unfolding allow_each
default_deny_all exceptions = record {
  name = "default-deny";
  description = "Deny all except explicit allows";
  rules = allow_each exceptions ++ plain_rule "*" "deny" "default deny" ∷ [];
}

unfoldable pub deny_each : List String → List Rule
deny_each [] = []
deny_each (d ∷ ds) = plain_rule d "deny" "explicitly denied" ∷ deny_each ds

unfoldable pub default_allow_all : List String → Policy
unfolding deny_each
default_allow_all denials = record {
  name = "default-allow";
  description = "Allow all except explicit denials";
  rules = deny_each denials ++ plain_rule "*" "allow" "default allow" ∷ [];
}
