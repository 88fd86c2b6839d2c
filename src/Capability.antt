-- ===== src/Capability.antt =====
-- internal/domain/capability/capability.go: the permissions of plugins. Category and action are
-- Go's string types.
pub mod Set
pub mod Policy
mod Examples
use Prim.Native.String.{◌++◌ as str_append}
use preflight.Base.{
  String, Bool, Fallible, List, Option, [], cut, fails, false, if◌then◌else◌, none, not, returns,
  some, str_eq, trim_space, true, ◌&&◌, ◌||◌, ◌∷◌,
}

pub record Capability : Type 0 where
  pub category : String
  pub action : String
  pub raw : String

pub data CapabilityError : Type 0 where
  empty_capability no_category : CapabilityError
  unknown_category : String → CapabilityError

-- `string(category) + ":" + string(action)`
unfoldable pub raw_text : String → String → String
raw_text category action = str_append category (str_append ":" action)

unfoldable pub new_capability : String → String → Capability
unfolding raw_text
new_capability category action = record {
  category = category;
  action = action;
  raw = raw_text category action;
}

abbrev pub is_valid_category : String → Bool
is_valid_category c =
    str_eq c "files"
    || (str_eq c "packages"
        || (str_eq c "shell" || (str_eq c "network" || (str_eq c "secrets" || str_eq c "system"))))

abbrev pub capability_of : String → Option (String × String) → Fallible CapabilityError Capability
capability_of s none = fails no_category
capability_of s (some (category, action)) =
    if not (is_valid_category category)
    then fails (unknown_category category)
    else returns (record { category = category; action = action; raw = s })

unfoldable pub parse_capability : String → Fallible CapabilityError Capability
parse_capability text =
    let s = trim_space text in
    if str_eq s "" then fails empty_capability else capability_of s (cut b':' s)

unfoldable pub capability_is_zero : Capability → Bool
capability_is_zero c = str_eq c.raw ""

unfoldable pub matches : Capability → Capability → Bool
matches c other =
    if not (str_eq c.category other.category)
    then false
    else if str_eq c.action "*" || str_eq other.action "*"
    then true
    else str_eq c.action other.action

abbrev pub dangerous_capabilities : List Capability
dangerous_capabilities =
    new_capability "shell" "execute"
    ∷ new_capability "secrets" "read"
    ∷ new_capability "secrets" "write"
    ∷ new_capability "system" "modify"
    ∷ []

unfoldable pub is_one_of : Capability → List Capability → Bool
is_one_of c [] = false
is_one_of c (dangerous ∷ rest) =
    (str_eq c.category dangerous.category && str_eq c.action dangerous.action) || is_one_of c rest

unfoldable pub is_dangerous : Capability → Bool
unfolding is_one_of new_capability
is_dangerous c = is_one_of c dangerous_capabilities
