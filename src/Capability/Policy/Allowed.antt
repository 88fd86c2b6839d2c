-- ===== src/Capability/Policy/Allowed.antt =====
-- When a policy allows a capability.
use preflight.Base.{
  String, Bool-cases, Has, List, [], arith, eq_iff, false, inl, inr, none, refl, subst, sym, true,
  ◌↔◌, ◌∷◌, ◌≡◌, ◌≢◌, ◌⊎◌, ◌∙◌,
}
use preflight.Capability.{Capability, matches, is_dangerous, new_capability, is_one_of}
use preflight.Capability.Set.{Set, contains, any_matches, set_matches, values}
use preflight.Capability.Policy.{Policy, check}

-- One capability covers another: the same category, and the same action or a star on a side.
abbrev pub Covers : Capability → Capability → Type 0
Covers b c =
    (b.category ≡ c.category) × ((b.action ≡ "*") ⊎ ((c.action ≡ "*") ⊎ (b.action ≡ c.action)))

-- A set has a capability that covers this one.
abbrev pub IsCovered : Set → Capability → Type 0
IsCovered s c = (b : Capability) × Has b (values s.capabilities) × Covers b c

matches_iff : (b c : Capability) → (matches b c ≡ true) ↔ Covers b c
unfolding matches
matches_iff b c = (
  λ h. ground (
    arith,
    h,
    eq_iff b.category c.category,
    eq_iff b.action "*",
    eq_iff c.action "*",
    eq_iff b.action c.action,
  ),
  λ h. ground (
    arith,
    h,
    eq_iff b.category c.category,
    eq_iff b.action "*",
    eq_iff c.action "*",
    eq_iff b.action c.action,
  ),
)

covered_by :
    (bs : List Capability) (c : Capability)
    → any_matches bs c ≡ true
    → (b : Capability) × Has b bs × Covers b c
unfolding any_matches
covered_by [] c h = cc
covered_by (b ∷ bs) c h = elim (Bool-cases (matches b c)) [
  | inl here ↦ (b, inl refl, (matches_iff b c).0 here)
  | inr other ↦ let (d, there, covers) = covered_by bs c (rw other at h) in (d, inr there, covers)
]

any_matches-Covers :
    (bs : List Capability) (b c : Capability) → Has b bs → Covers b c → any_matches bs c ≡ true
unfolding any_matches
any_matches-Covers [] b c h covers = absurd h
any_matches-Covers (d ∷ bs) b c (inl e) covers =
    let here : matches d c ≡ true = (matches_iff d c).1 (subst (λ x. Covers x c) (sym e) covers) in
    rw here refl
any_matches-Covers (d ∷ bs) b c (inr h) covers = ground (arith, any_matches-Covers bs b c h covers)

pub set_matches_iff : (s : Set) (c : Capability) → (set_matches s c ≡ true) ↔ IsCovered s c
unfolding set_matches
set_matches_iff s c = (
  λ h. covered_by _ c h,
  λ (b, h, covers). any_matches-Covers (values s.capabilities) b c h covers,
)

-- A dangerous capability wants an approval, where the policy asks for one.
abbrev pub IsApproved : Policy → Capability → Type 0
IsApproved p c =
    (is_dangerous c ≡ false) ⊎ ((p.require_approval ≡ false) ⊎ (contains p.approved c ≡ true))

check-IsApproved : (p : Policy) (c : Capability) → check p c ≡ none → IsApproved p c
unfolding check
check-IsApproved p c h = elim (Bool-cases (is_dangerous c)) [
  | inr safe ↦ inl safe
  | inl dangerous ↦ elim (Bool-cases p.require_approval) [
    | inr free ↦ inr (inl free)
    | inl asked ↦ inr (inr (ground (arith, h, dangerous, asked)))
  ]
]

check_tests :
    (p : Policy) (c : Capability)
    → (check p c ≡ none)
      ↔ ((set_matches p.blocked c ≡ false) × (set_matches p.granted c ≡ true) × IsApproved p c)
unfolding check
check_tests p c = (
  λ h. (ground (arith, h), ground (arith, h), check-IsApproved p c h),
  λ (b, g, a). ground (arith, b, g, a),
)

-- A capability is allowed exactly if nothing that is blocked covers it, something that is granted
-- does, and it is not dangerous, or no approval is asked for, or it has been approved.
pub check_iff :
    (p : Policy) (c : Capability)
    → (check p c ≡ none) ↔ ((¬ IsCovered p.blocked c) × IsCovered p.granted c × IsApproved p c)
check_iff p c =
    let (tests, passes) = check_tests p c in
    let (_, blocks) = set_matches_iff p.blocked c in
    let (granted, grants) = set_matches_iff p.granted c in
    (
      λ h.
          let (b, g, a) = tests h in
          (λ covered. absurd (apart (sym b ∙ blocks covered)), granted g, a),
      λ (b, g, a). passes (unblocked b, grants g, a),
    )
  where
    apart : false ≡ true → ⊥
    apart e = cc

    unblocked : ¬ IsCovered p.blocked c → set_matches p.blocked c ≡ false
    unblocked free = elim (Bool-cases (set_matches p.blocked c)) [
      | inl h ↦ absurd (free ((set_matches_iff p.blocked c).0 h))
      | inr h ↦ h
    ]

star_safe : (category : String) → is_dangerous (new_capability category "*") ≡ false
unfolding is_dangerous is_one_of new_capability
star_safe category = ground arith

star_covered : (c : Capability) → Covers c (new_capability c.category "*")
unfolding new_capability
star_covered c = (refl, inr (inl refl))

star_category :
    (b : Capability) (category : String)
    → Covers b (new_capability category "*")
    → b.category ≡ category
unfolding new_capability
star_category b category (e, _) = e

-- If a capability is granted, and none of its category is blocked, then a request for its whole
-- category is allowed: also where that takes in dangerous ones which were neither granted nor
-- approved.
pub check-star :
    (p : Policy) (c : Capability)
    → Has c (values p.granted.capabilities)
    → ((b : Capability) → Has b (values p.blocked.capabilities) → b.category ≢ c.category)
    → check p (new_capability c.category "*") ≡ none
check-star p c granted free = (check_iff p (new_capability c.category "*")).1 (
  λ (b, h, covers). free b h (star_category b c.category covers),
  (c, granted, star_covered c),
  inl (star_safe c.category),
)
