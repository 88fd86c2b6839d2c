-- ===== src/Capability/Examples.antt =====
-- A plugin that manages secrets: the theorems at a concrete policy.
use preflight.GoMap.{lookup}
use preflight.Base.{String, Has, [], ap, inl, inr, none, refl, some, true, ◌↔◌, ◌∙◌, ◌∷◌, ◌≡◌, ◌≢◌}
use preflight.Capability.{Capability, is_dangerous, is_one_of, matches, new_capability, raw_text}
use preflight.Capability.Set.{contains, values, any_matches, set_matches}
use preflight.Capability.Policy.{Policy, approve_all, capability_dangerous, check}
use preflight.Capability.Policy.Allowed.{check_iff, IsCovered, IsApproved, check-star}
use preflight.Capability.Policy.Approval.{IsPolicy, check-approve_all}

abbrev secrets_read : Capability
secrets_read = record { category = "secrets"; action = "read"; raw = "secrets:read" }

abbrev shell_all : Capability
shell_all = record { category = "shell"; action = "*"; raw = "shell:*" }

abbrev plugin : Policy
plugin = record {
  granted = record { capabilities = ("secrets:read", secrets_read) ∷ [] };
  blocked = record { capabilities = ("shell:*", shell_all) ∷ [] };
  approved = record { capabilities = [] };
  require_approval = true;
}

plugin-IsPolicy : IsPolicy plugin
unfolding raw_text
plugin-IsPolicy = (((refl, (refl, refl)), tt), ((refl, (refl, refl)), tt))

check_iff_example : (check plugin secrets_read ≡ none) ↔ (
    (¬ IsCovered plugin.blocked secrets_read)
    × IsCovered plugin.granted secrets_read
    × IsApproved plugin secrets_read)
check_iff_example = check_iff plugin secrets_read

-- The secret is not to be read yet, and it is after an approval.
secrets_wait : check plugin secrets_read ≡ some (capability_dangerous secrets_read)
unfolding check set_matches any_matches values matches is_dangerous is_one_of new_capability
    contains lookup raw_text
secrets_wait = refl

none_else : (b : Capability) → Has b (values plugin.blocked.capabilities) → b.category ≢ "secrets"
unfolding values
none_else b (inl e) same = differ (ap (λ (c : Capability). c.category) e ∙ same)
  where
    differ : ◌≡◌ {A = String} "shell" "secrets" → ⊥
    differ e = cc
none_else b (inr h) same = h

check-star_example : check plugin (new_capability "secrets" "*") ≡ none
unfolding values
check-star_example = check-star plugin secrets_read (inl refl) none_else

check-approve_all_example :
    (check (approve_all plugin) secrets_read ≡ none) ↔ ¬ IsCovered plugin.blocked secrets_read
unfolding values
check-approve_all_example = check-approve_all plugin plugin-IsPolicy secrets_read (inl refl)
