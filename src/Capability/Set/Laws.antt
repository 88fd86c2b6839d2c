-- ===== src/Capability/Set/Laws.antt =====
-- What a set holds after each operation, for sets of well-formed capabilities.
use text.Mathlib.TextLemmas.{nil-append, cons-append}
use preflight.Base.{
  String, returns, All, Bool-cases, Has, List, Option, [], ap, arith, contains_char, cut,
  cut-append, cut_full, eq_iff, false, inl, inr, refl, some, str_eq, sym, true, ◌||◌, ◌∙◌, ◌∷◌, ◌≡◌,
  cut_inverse, none, subst, trim_space,
}
use preflight.GoMap.{put, lookup, has, IsMap}
use preflight.GoMap.Laws.{lookup-put, put-IsMap}
use preflight.Capability.{
  Capability, capability_is_zero, new_capability, parse_capability, raw_text, capability_of,
}
use preflight.Capability.Set.{Set, contains, add_capability, values}

-- What the constructors make: the text is that of category and action, and the category has no
-- colon.
abbrev pub IsCapability : Capability → Type 0
IsCapability c = (c.raw ≡ raw_text c.category c.action) × (contains_char b':' c.category ≡ false)

abbrev pub IsEntry : String × Capability → Type 0
IsEntry (k, c) = (k ≡ c.raw) × IsCapability c

abbrev pub IsSetOf : List (String × Capability) → Type 0
IsSetOf m = IsMap m × All IsEntry m

raw_text-cut :
    (category action : String)
    → contains_char b':' category ≡ false
    → cut b':' (raw_text category action) ≡ some (category, action)
unfolding raw_text
raw_text-cut category action plain =
    rw (cons-append, nil-append) (cut-append b':' _ category action refl plain)

-- A capability is told by its text.
pub raw_injective : (c d : Capability) → IsCapability c → IsCapability d → c.raw ≡ d.raw → c ≡ d
raw_injective c d (tc, pc) (td, pd) same =
    let e : ◌≡◌ {A = Option (String × String)} (some (c.category, c.action))
        (some (d.category, d.action)) =
      sym (raw_text-cut c.category c.action pc)
      ∙ (ap (cut b':') (sym tc ∙ (same ∙ td)) ∙ raw_text-cut d.category d.action pd) in
    let category : c.category ≡ d.category = cc in
    let action : c.action ≡ d.action = cc in
    λ i. record { category = category i; action = action i; raw = same i }

-- A well-formed capability has a text.
pub raw_filled : (c : Capability) → IsCapability c → capability_is_zero c ≡ false
unfolding capability_is_zero
raw_filled c (t, plain) =
    rw t (cut_full b':' (raw_text c.category c.action) _ (raw_text-cut c.category c.action plain))

text_lem :
    (s category action : String)
    → cut b':' s ≡ some (category, action)
    → (s ≡ raw_text category action) × (contains_char b':' category ≡ false)
unfolding raw_text
text_lem s category action e = rw (cons-append, nil-append) (cut_inverse _ s category action e)

capability_of_lem :
    (s : String) (o : Option (String × String)) (c : Capability)
    → cut b':' s ≡ o
    → capability_of s o ≡ returns c
    → IsCapability c
capability_of_lem s none c found e = cc
capability_of_lem s (some (category, action)) c found e =
    let same : (c.category ≡ category) × (c.action ≡ action) × (c.raw ≡ s) = ground (arith, e) in
    let (whole, plain) = text_lem s category action found in
    (rw (same.0, same.1, same.2) whole, rw same.0 plain)

-- What is parsed is well-formed.
pub parse_capability-IsCapability :
    (s : String) (c : Capability) → parse_capability s ≡ returns c → IsCapability c
unfolding parse_capability
parse_capability-IsCapability s c e = elim (Bool-cases (str_eq (trim_space s) "")) [
  | inl empty ↦ ground (arith, empty, e)
  | inr full ↦ capability_of_lem (trim_space s) (cut b':' (trim_space s)) c refl (rw full at e)
]

pub new_capability-IsCapability :
    (category action : String)
    → contains_char b':' category ≡ false
    → IsCapability (new_capability category action)
unfolding new_capability
new_capability-IsCapability category action plain = (refl, plain)

put-All :
    (c : Capability) (m : List (String × Capability))
    → IsCapability c
    → All IsEntry m
    → All IsEntry (put c.raw c m)
unfolding put
put-All c [] h hs = ((refl, h), tt)
put-All c ((k, d) ∷ m) h hs = elim (Bool-cases (str_eq k c.raw)) [
  | inl e ↦ rw e (((eq_iff k c.raw).0 e, h), hs.1)
  | inr ne ↦ rw ne (hs.0, put-All c m h hs.1)
]

pub add_capability-IsSet :
    (s : Set) (c : Capability)
    → IsCapability c
    → IsSetOf s.capabilities
    → IsSetOf (add_capability s c).capabilities
unfolding add_capability
add_capability-IsSet s c h (unique, entries) =
    rw (raw_filled c h)
      (put-IsMap c.raw c s.capabilities unique, put-All c s.capabilities h entries)

pub contains-add_capability :
    (s : Set) (c d : Capability)
    → IsCapability c
    → contains (add_capability s c) d ≡ (str_eq c.raw d.raw || contains s d)
unfolding add_capability contains
contains-add_capability s c d h =
    rw (raw_filled c h) (ground (arith, lookup-put d.raw c.raw c s.capabilities))

-- A set contains a well-formed capability exactly if it is one of its values.
pub contains-Has :
    (m : List (String × Capability)) (d : Capability)
    → All IsEntry m
    → IsCapability d
    → has d.raw m ≡ true
    → Has d (values m)
unfolding lookup values
contains-Has [] d hs h e = cc
contains-Has ((k, c) ∷ m) d hs h e = elim (Bool-cases (str_eq k d.raw)) [
  | inl same ↦ inl (raw_injective c d hs.0.1 h (sym hs.0.0 ∙ (eq_iff k d.raw).0 same))
  | inr ne ↦ inr (contains-Has m d hs.1 h (rw ne at e))
]

pub Has-contains :
    (m : List (String × Capability)) (d : Capability)
    → All IsEntry m
    → Has d (values m)
    → (has d.raw m ≡ true) × IsCapability d
unfolding lookup values
Has-contains [] d hs h = absurd h
Has-contains ((k, c) ∷ m) d hs (inl e) = (
  ground (arith, eq_iff k d.raw, hs.0.0, ap (λ (x : Capability). x.raw) e),
  subst IsCapability e hs.0.1,
)
Has-contains ((k, c) ∷ m) d hs (inr h) =
    let (there, well) = Has-contains m d hs.1 h in (ground arith, well)
