-- ===== src/Capability/Policy.antt =====
-- internal/domain/capability/policy.go: which capabilities a plugin may use. Where the code changes
-- a policy through its pointer, the new policy is returned.
pub mod Allowed
pub mod Approval
use preflight.GoMap.{is_some}
use preflight.Base.{
  String, Bool, Fallible, List, Option, [], fails, false, if◌then◌else◌, length, ltb, none, not,
  returns, some, true, ℕ, ◌&&◌, ◌∷◌,
}
use preflight.Capability.{
  Capability, CapabilityError, is_dangerous, parse_capability, new_capability,
}
use preflight.Capability.Set.{
  Set, add_all, new_set, add_capability, contains, dangerous_in, difference, keep_where, list_set,
  set_count, set_matches,
}

pub record Policy : Type 0 where
  pub granted : Set
  pub blocked : Set
  pub approved : Set
  pub require_approval : Bool

pub data PolicyError : Type 0 where
  capability_denied capability_not_granted capability_dangerous : Capability → PolicyError

unfoldable pub new_policy : Policy
unfolding new_set
new_policy = record {
  granted = new_set;
  blocked = new_set;
  approved = new_set;
  require_approval = true;
}

-- The methods of `PolicyBuilder`, which is the policy that it builds.
unfoldable pub grant : Policy → List Capability → Policy
grant p cs = record p { granted = add_all p.granted cs }

unfoldable pub block : Policy → List Capability → Policy
block p cs = record p { blocked = add_all p.blocked cs }

unfoldable pub approve : Policy → List Capability → Policy
approve p cs = record p { approved = add_all p.approved cs }

abbrev pub add_parsed : Set → Fallible CapabilityError Capability → Set
add_parsed s (returns c) = add_capability s c
add_parsed s (fails e) = s

unfoldable pub add_strings : Set → List String → Set
unfolding parse_capability
add_strings s [] = s
add_strings s (t ∷ ts) = add_strings (add_parsed s (parse_capability t)) ts

unfoldable pub grant_strings : Policy → List String → Policy
unfolding add_strings
grant_strings p ts = record p { granted = add_strings p.granted ts }

unfoldable pub block_strings : Policy → List String → Policy
unfolding add_strings
block_strings p ts = record p { blocked = add_strings p.blocked ts }

unfoldable pub check : Policy → Capability → Option PolicyError
unfolding set_matches is_dangerous contains
check p c =
    if set_matches p.blocked c
    then some (capability_denied c)
    else if not (set_matches p.granted c)
    then some (capability_not_granted c)
    else if is_dangerous c && (p.require_approval && not (contains p.approved c))
    then some (capability_dangerous c)
    else none

abbrev pub first_error : Option PolicyError → Option PolicyError → Option PolicyError
first_error none rest = rest
first_error (some e) rest = some e

unfoldable pub check_all : Policy → List Capability → Option PolicyError
unfolding check
check_all p [] = none
check_all p (c ∷ cs) = first_error (check p c) (check_all p cs)

unfoldable pub is_allowed : Policy → Capability → Bool
unfolding check
is_allowed p c = not (is_some (check p c))

unfoldable pub effective : Policy → Set
unfolding difference
effective p = difference p.granted p.blocked

unfoldable pub pending_approval : Policy → List Capability
unfolding dangerous_in keep_where contains
pending_approval p =
    if not p.require_approval
    then []
    else keep_where (λ c. not (contains p.approved c) && not (contains p.blocked c))
        (dangerous_in p.granted)

unfoldable pub needs_approval : Policy → Bool
unfolding pending_approval
needs_approval p = ltb 0 (length (pending_approval p))

unfoldable pub approve_all : Policy → Policy
unfolding pending_approval
approve_all p = record p { approved = add_all p.approved (pending_approval p) }

pub record Violation : Type 0 where
  pub capability : Capability
  pub reason : String
  pub is_blocked : Bool

unfoldable pub violations_of : Policy → List Capability → List Violation
unfolding set_matches
violations_of p [] = []
violations_of p (c ∷ cs) =
    let rest = violations_of p cs in
    if set_matches p.blocked c
    then record { capability = c; reason = "blocked by policy"; is_blocked = true } ∷ rest
    else if not (set_matches p.granted c)
    then record { capability = c; reason = "not granted"; is_blocked = false } ∷ rest
    else rest

unfoldable pub validate : Policy → Set → List Violation
unfolding violations_of list_set
validate p requested = violations_of p (list_set requested)

pub record PolicySummary : Type 0 where
  pub granted_count : ℕ
  pub blocked_count : ℕ
  pub effective_count : ℕ
  pub dangerous_count : ℕ
  pub pending_count : ℕ

unfoldable pub summary : Policy → PolicySummary
unfolding effective pending_approval
summary p = record {
  granted_count = set_count p.granted;
  blocked_count = set_count p.blocked;
  effective_count = set_count (effective p);
  dangerous_count = length (dangerous_in (effective p));
  pending_count = length (pending_approval p);
}

-- The well-known capabilities of `AllCapabilities`.
abbrev pub all_capabilities : List Capability
all_capabilities =
    new_capability "files" "read"
    ∷ new_capability "files" "write"
    ∷ new_capability "packages" "brew"
    ∷ new_capability "packages" "apt"
    ∷ new_capability "packages" "winget"
    ∷ new_capability "packages" "scoop"
    ∷ new_capability "packages" "chocolatey"
    ∷ new_capability "shell" "execute"
    ∷ new_capability "network" "fetch"
    ∷ new_capability "secrets" "read"
    ∷ new_capability "secrets" "write"
    ∷ new_capability "system" "modify"
    ∷ []

unfoldable pub full_access_policy : Policy
unfolding new_policy grant new_capability
full_access_policy = grant (record new_policy { require_approval = false }) all_capabilities

unfoldable pub restricted_policy : Policy
unfolding new_policy grant block new_capability
restricted_policy =
    let reading =
      grant (grant new_policy (new_capability "files" "read" ∷ []))
        (new_capability "network" "fetch" ∷ []) in
    let no_shell = block reading (new_capability "shell" "execute" ∷ []) in
    let no_secrets =
      block no_shell (new_capability "secrets" "read" ∷ new_capability "secrets" "write" ∷ []) in
    block no_secrets (new_capability "system" "modify" ∷ [])
