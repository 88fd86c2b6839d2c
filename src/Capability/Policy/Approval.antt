-- ===== src/Capability/Policy/Approval.antt =====
-- What approving all pending capabilities does.
use preflight.Base.{
  All, Bool, Bool-cases, Has, List, [], inl, inr, refl, true, ◌∷◌, ◌≡◌, ap, arith, eq_iff, false,
  subst, none, not, ◌&&◌, ◌↔◌,
}
use preflight.Capability.{Capability, is_dangerous}
use preflight.Capability.Set.{
  Set, contains, add_all, keep_where, add_capability, dangerous_in, values,
}
use preflight.Capability.Set.Laws.{
  IsCapability, IsEntry, contains-add_capability, Has-contains, contains-Has,
}
use preflight.Capability.Policy.{Policy, approve_all, pending_approval, check}
use preflight.Capability.Policy.Allowed.{check_iff, IsCovered, Covers, IsApproved}

Has-keep_where :
    (test : Capability → Bool) (cs : List Capability) (c : Capability)
    → Has c cs
    → test c ≡ true
    → Has c (keep_where test cs)
unfolding keep_where
Has-keep_where test [] c h t = absurd h
Has-keep_where test (d ∷ cs) c (inl e) t = rw (e, t) (inl refl)
Has-keep_where test (d ∷ cs) c (inr h) t = elim (Bool-cases (test d)) [
  | inl yes_kept ↦ rw yes_kept (inr (Has-keep_where test cs c h t))
  | inr dropped ↦ rw dropped (Has-keep_where test cs c h t)
]

keep_first :
    (test : Capability → Bool) (d : Capability) (cs : List Capability) (c : Capability)
    → test d ≡ true
    → (Has c (keep_where test cs) → Has c cs × (test c ≡ true))
    → Has c (d ∷ keep_where test cs)
    → Has c (d ∷ cs) × (test c ≡ true)
keep_first test d cs c kept ih (inl e) = (inl e, subst (λ x. test x ≡ true) e kept)
keep_first test d cs c kept ih (inr h) = let (there, t) = ih h in (inr there, t)

keep_where-Has :
    (test : Capability → Bool) (cs : List Capability) (c : Capability)
    → Has c (keep_where test cs)
    → Has c cs × (test c ≡ true)
unfolding keep_where
keep_where-Has test [] c h = absurd h
keep_where-Has test (d ∷ cs) c h = elim (Bool-cases (test d)) [
  | inl kept ↦ keep_first test d cs c kept (keep_where-Has test cs c) (rw kept at h)
  | inr dropped ↦ let (there, t) = keep_where-Has test cs c (rw dropped at h) in (inr there, t)
]

keep_where_none :
    (test : Capability → Bool) (cs : List Capability)
    → ((c : Capability) → Has c cs → test c ≡ false)
    → keep_where test cs ≡ []
unfolding keep_where
keep_where_none test [] h = refl
keep_where_none test (c ∷ cs) h =
    rw (h c (inl refl), keep_where_none test cs (λ d there. h d (inr there))) refl

add_all-contains_old :
    (cs : List Capability) (s : Set) (c : Capability)
    → ((d : Capability) → Has d cs → IsCapability d)
    → contains s c ≡ true
    → contains (add_all s cs) c ≡ true
unfolding add_all
add_all-contains_old [] s c well h = h
add_all-contains_old (d ∷ cs) s c well h =
    add_all-contains_old cs (add_capability s d) c (λ e there. well e (inr there))
      (rw (contains-add_capability s d c (well d (inl refl)), h) (ground arith))

add_all-contains :
    (cs : List Capability) (s : Set) (c : Capability)
    → ((d : Capability) → Has d cs → IsCapability d)
    → Has c cs
    → contains (add_all s cs) c ≡ true
unfolding add_all
add_all-contains [] s c well h = absurd h
add_all-contains (d ∷ cs) s c well (inl e) =
    add_all-contains_old cs (add_capability s d) c (λ e there. well e (inr there))
      (rw
        (
          contains-add_capability s d c (well d (inl refl)),
          (eq_iff d.raw c.raw).1 (ap (λ (x : Capability). x.raw) e),
        )
        refl)
add_all-contains (d ∷ cs) s c well (inr h) =
    add_all-contains cs (add_capability s d) c (λ e there. well e (inr there)) h

-- Policies whose sets are made of well-formed capabilities, each under its text.
abbrev pub IsPolicy : Policy → Type 0
IsPolicy p = All IsEntry p.granted.capabilities × All IsEntry p.blocked.capabilities

Covers-refl : (c : Capability) → Covers c c
Covers-refl c = (refl, inr (inr refl))

-- What waits for an approval.
abbrev pub IsPending : Policy → Capability → Type 0
IsPending p c =
    (p.require_approval ≡ true)
    × Has c (values p.granted.capabilities)
    × (is_dangerous c ≡ true)
    × (contains p.approved c ≡ false)
    × (contains p.blocked c ≡ false)

IsPending-iff : (p : Policy) (c : Capability) → Has c (pending_approval p) ↔ IsPending p c
unfolding pending_approval dangerous_in
IsPending-iff p c =
    let test = λ (d : Capability). not (contains p.approved d) && not (contains p.blocked d) in
    (
      λ h. elim (Bool-cases p.require_approval) [
        | inl asked ↦
            let (there, waits) =
              keep_where-Has test (keep_where is_dangerous (values p.granted.capabilities)) c
                (rw asked at h) in
            let (granted, dangerous) =
              keep_where-Has is_dangerous (values p.granted.capabilities) c there in
            (asked, granted, dangerous, ground (arith, waits), ground (arith, waits))
        | inr free ↦ absurd (rw free at h)
      ],
      λ (asked, granted, dangerous, fresh, free). rw asked (
          Has-keep_where test (keep_where is_dangerous (values p.granted.capabilities)) c
            (Has-keep_where is_dangerous (values p.granted.capabilities) c granted dangerous)
            (rw (fresh, free) refl)),
    )

none_in : (cs : List Capability) → ((c : Capability) → ¬ Has c cs) → cs ≡ []
none_in [] h = refl
none_in (c ∷ cs) h = absurd (h c (inl refl))

module _ (p : Policy) (well : IsPolicy p) where
  pending-IsCapability : (c : Capability) → Has c (pending_approval p) → IsCapability c
  pending-IsCapability c h =
      (Has-contains p.granted.capabilities c well.0 ((IsPending-iff p c).0 h).1).1

  -- A dangerous capability that is granted, and not blocked, is approved in the end.
  approved_lem :
      (c : Capability)
      → Has c (values p.granted.capabilities)
      → is_dangerous c ≡ true
      → p.require_approval ≡ true
      → contains p.blocked c ≡ false
      → contains (approve_all p).approved c ≡ true
  unfolding approve_all
  approved_lem c granted dangerous asked free = elim (Bool-cases (contains p.approved c)) [
    | inl before ↦
        add_all-contains_old (pending_approval p) p.approved c pending-IsCapability before
    | inr fresh ↦
        add_all-contains (pending_approval p) p.approved c pending-IsCapability
          ((IsPending-iff p c).1 (asked, granted, dangerous, fresh, free))
  ]

  -- Nothing waits for an approval once all has been approved.
  pub pending_approval-approve_all : pending_approval (approve_all p) ≡ []
  unfolding approve_all
  pending_approval-approve_all = none_in (pending_approval (approve_all p)) (λ c h.
      let (asked, granted, dangerous, fresh, free) =
        still c ((IsPending-iff (approve_all p) c).0 h) in
      clash c (approved_lem c granted dangerous asked free) fresh)
    where
      clash :
          (c : Capability)
          → contains (approve_all p).approved c ≡ true
          → contains (approve_all p).approved c ≡ false
          → ⊥
      clash c a b = cc

      still :
          (c : Capability)
          → IsPending (approve_all p) c
          → (p.require_approval ≡ true)
            × Has c (values p.granted.capabilities)
            × (is_dangerous c ≡ true)
            × (contains (approve_all p).approved c ≡ false)
            × (contains p.blocked c ≡ false)
      still c h = h

  -- Once all has been approved, a granted capability is allowed exactly if no blocked one covers
  -- it.
  pub check-approve_all :
      (c : Capability)
      → Has c (values p.granted.capabilities)
      → (check (approve_all p) c ≡ none) ↔ ¬ IsCovered p.blocked c
  unfolding contains approve_all
  check-approve_all c granted = (
    λ h. ((check_iff (approve_all p) c).0 h).0,
    λ free. (check_iff (approve_all p) c).1 (free, (c, granted, Covers-refl c), approved free),
  )
    where
      approved : ¬ IsCovered p.blocked c → IsApproved (approve_all p) c
      approved free = elim (Bool-cases (is_dangerous c)) [
        | inr safe ↦ inl safe
        | inl dangerous ↦ elim (Bool-cases p.require_approval) [
          | inr unasked ↦ inr (inl unasked)
          | inl asked ↦ elim (Bool-cases (contains p.blocked c)) [
            | inr open_to ↦ inr (inr (approved_lem c granted dangerous asked open_to))
            | inl shut ↦ absurd (
                free (
                  c,
                  contains-Has p.blocked.capabilities c well.1
                      (Has-contains p.granted.capabilities c well.0 granted).1 shut,
                  Covers-refl c,
                ))
          ]
        ]
      ]
