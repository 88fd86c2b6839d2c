-- ===== src/Sync/VersionVector/Order.antt =====
-- `Compare` decides the pointwise order of vector clocks.
use preflight.Base.{
  ◌≤◌, ◌<◌, String, Bool, true, false, ◌||◌, List, [], ◌∷◌, ◌≡◌, ◌↔◌, ◌⊎◌, inl, inr, refl, subst,
  arith, ltb, Has, All, All-Has, dec_Has, Bool-cases, List-cases,
}
use preflight.GoMap.{keys, has, add_keys}
use preflight.GoMap.Laws.{Has-keys, has-add_keys}
use preflight.Sync.VersionVector.{
  CausalRelation, equal, before, after, concurrent, VersionVector, get, scan, classify, all_keys,
  compare, is_equal, is_after, dominates, equals,
}

-- Some machine's time is less in `v` than in `w`.
abbrev pub SomeLess : VersionVector → VersionVector → Type 0
SomeLess v w = (k : String) × (get v k < get w k)

abbrev pub NoneLess : VersionVector → VersionVector → Type 0
NoneLess v w = (k : String) → get w k ≤ get v k

-- The causal relations of vector clocks, told by the times of all machines.
abbrev pub Relates : CausalRelation → VersionVector → VersionVector → Type 0
Relates equal v w = NoneLess v w × NoneLess w v
Relates before v w = SomeLess v w × NoneLess w v
Relates after v w = NoneLess v w × SomeLess w v
Relates concurrent v w = SomeLess v w × SomeLess w v

module _ (v w : VersionVector) where
  scan_less :
      (ks : List String) (less more : Bool)
      → (scan v w ks less more).0 ≡ true
      → (less ≡ true) ⊎ SomeLess v w
  unfolding scan
  scan_less [] less more h = inl h
  scan_less (k ∷ ks) less more h = elim (scan_less ks _ _ h) [
    | inl e ↦ elim (Bool-cases (ltb (get v k) (get w k))) [
      | inl lt ↦ inr (k, ground arith)
      | inr ge ↦ inl (rw ge at e)
    ]
    | inr some_less ↦ inr some_less
  ]

  scan_more :
      (ks : List String) (less more : Bool)
      → (scan v w ks less more).1 ≡ true
      → (more ≡ true) ⊎ SomeLess w v
  unfolding scan
  scan_more [] less more h = inl h
  scan_more (k ∷ ks) less more h = elim (scan_more ks _ _ h) [
    | inl e ↦ elim (Bool-cases (ltb (get w k) (get v k))) [
      | inl lt ↦ inr (k, ground arith)
      | inr ge ↦ inl (ground arith)
    ]
    | inr some_more ↦ inr some_more
  ]

  scan_not_less :
      (ks : List String) (less more : Bool)
      → (scan v w ks less more).0 ≡ false
      → (less ≡ false) × All (λ k. get w k ≤ get v k) ks
  unfolding scan
  scan_not_less [] less more h = (h, tt)
  scan_not_less (k ∷ ks) less more h =
      let (e, rest) = scan_not_less ks _ _ h in (ground arith, (ground arith, rest))

  scan_not_more :
      (ks : List String) (less more : Bool)
      → (scan v w ks less more).1 ≡ false
      → (more ≡ false) × All (λ k. get v k ≤ get w k) ks
  unfolding scan
  scan_not_more [] less more h = (h, tt)
  scan_not_more (k ∷ ks) less more h =
      let (e, rest) = scan_not_more ks _ _ h in (ground arith, (ground arith, rest))

  flags : Bool × Bool
  flags = scan v w (all_keys v w) false false

  compare-flags : compare v w ≡ classify flags.0 flags.1
  unfolding compare flags all_keys
  compare-flags = elim (List-cases (keys (add_keys w.entries (add_keys v.entries [])))) [
    | inl e ↦ rw (e, compare)
    | inr (k, ks, e) ↦ rw (e, compare)
  ]

  -- A machine that is in neither vector has the time 0 in both.
  unseen : (k : String) → ¬ Has k (all_keys v w) → (get v k ≡ 0) × (get w k ≡ 0)
  unfolding all_keys get
  unseen k absent = ground (
    arith,
    λ (h : has k w.entries ≡ true). absent (Has-keys k _ ((has-add_keys k w.entries _).1 (inl h))),
    λ (h : has k v.entries ≡ true). absent (
        Has-keys k _
          ((has-add_keys k w.entries _).1 (inr ((has-add_keys k v.entries []).1 (inl h))))),
  )

  seen_or_unseen : (k : String) → Has k (all_keys v w) ⊎ ((get v k ≡ 0) × (get w k ≡ 0))
  seen_or_unseen k = elim (dec_Has k (all_keys v w)) [
    | yes seen ↦ inl seen
    | no absent ↦ inr (unseen k absent)
  ]

  NoneLess-scan : (scan v w (all_keys v w) false false).0 ≡ false → NoneLess v w
  NoneLess-scan h k = elim (seen_or_unseen k) [
    | inl seen ↦
        All-Has (λ j. get w j ≤ get v j) k (all_keys v w)
          (scan_not_less (all_keys v w) false false h).1 seen
    | inr zeros ↦ omega arith
  ]

  NoneMore-scan : (scan v w (all_keys v w) false false).1 ≡ false → NoneLess w v
  NoneMore-scan h k = elim (seen_or_unseen k) [
    | inl seen ↦
        All-Has (λ j. get v j ≤ get w j) k (all_keys v w)
          (scan_not_more (all_keys v w) false false h).1 seen
    | inr zeros ↦ omega arith
  ]

  Less-scan : (scan v w (all_keys v w) false false).0 ≡ true → SomeLess v w
  Less-scan h = elim (scan_less (all_keys v w) false false h) [
    | inl e ↦ cc
    | inr some_less ↦ some_less
  ]

  More-scan : (scan v w (all_keys v w) false false).1 ≡ true → SomeLess w v
  More-scan h = elim (scan_more (all_keys v w) false false h) [
    | inl e ↦ cc
    | inr some_more ↦ some_more
  ]

  classify-Relates : (less more : Bool) → flags ≡ (less, more) → Relates (classify less more) v w
  unfolding classify flags
  classify-Relates false false e = (NoneLess-scan (cc), NoneMore-scan (cc))
  classify-Relates true false e = (Less-scan (cc), NoneMore-scan (cc))
  classify-Relates false true e = (NoneLess-scan (cc), More-scan (cc))
  classify-Relates true true e = (Less-scan (cc), More-scan (cc))

  pub compare-Relates : Relates (compare v w) v w
  compare-Relates = rw compare-flags (classify-Relates flags.0 flags.1 refl)

  not-SomeLess-NoneLess : SomeLess v w → NoneLess v w → ⊥
  not-SomeLess-NoneLess (k, lt) none_less = omega (arith, none_less k)

-- At most one relation holds between two vectors.
Relates-unique :
    (r s : CausalRelation) (v w : VersionVector) → Relates r v w → Relates s v w → r ≡ s
Relates-unique equal equal v w a b = refl
Relates-unique equal before v w a b = absurd (not-SomeLess-NoneLess v w b.0 a.0)
Relates-unique equal after v w a b = absurd (not-SomeLess-NoneLess w v b.1 a.1)
Relates-unique equal concurrent v w a b = absurd (not-SomeLess-NoneLess v w b.0 a.0)
Relates-unique before equal v w a b = absurd (not-SomeLess-NoneLess v w a.0 b.0)
Relates-unique before before v w a b = refl
Relates-unique before after v w a b = absurd (not-SomeLess-NoneLess v w a.0 b.0)
Relates-unique before concurrent v w a b = absurd (not-SomeLess-NoneLess w v b.1 a.1)
Relates-unique after equal v w a b = absurd (not-SomeLess-NoneLess w v a.1 b.1)
Relates-unique after before v w a b = absurd (not-SomeLess-NoneLess v w b.0 a.0)
Relates-unique after after v w a b = refl
Relates-unique after concurrent v w a b = absurd (not-SomeLess-NoneLess v w b.0 a.0)
Relates-unique concurrent equal v w a b = absurd (not-SomeLess-NoneLess v w a.0 b.0)
Relates-unique concurrent before v w a b = absurd (not-SomeLess-NoneLess w v a.1 b.1)
Relates-unique concurrent after v w a b = absurd (not-SomeLess-NoneLess v w a.0 b.0)
Relates-unique concurrent concurrent v w a b = refl

-- `compare` answers a relation exactly if the times of all machines stand in it.
pub compare_iff : (r : CausalRelation) (v w : VersionVector) → (compare v w ≡ r) ↔ Relates r v w
compare_iff r v w = (
  λ e. subst (λ s. Relates s v w) e (compare-Relates v w),
  λ h. Relates-unique (compare v w) r v w (compare-Relates v w) h,
)

is_equal_lem : (r : CausalRelation) → is_equal r ≡ true → r ≡ equal
is_equal_lem equal h = refl
is_equal_lem before h = cc
is_equal_lem after h = cc
is_equal_lem concurrent h = cc

-- Vectors are equal exactly if each machine has one time in both.
pub equals_iff : (v w : VersionVector) → (equals v w ≡ true) ↔ Relates equal v w
unfolding equals
equals_iff v w = (
  λ h. (compare_iff equal v w).0 (is_equal_lem (compare v w) h),
  λ h. rw ((compare_iff equal v w).1 h) refl,
)

-- The answer with the vectors swapped.
abbrev pub flip : CausalRelation → CausalRelation
flip equal = equal
flip before = after
flip after = before
flip concurrent = concurrent

Relates-flip : (r : CausalRelation) (v w : VersionVector) → Relates r v w → Relates (flip r) w v
Relates-flip equal v w h = (h.1, h.0)
Relates-flip before v w h = (h.1, h.0)
Relates-flip after v w h = (h.1, h.0)
Relates-flip concurrent v w h = (h.1, h.0)

-- Comparing the other way round swaps before and after, and keeps the other two answers.
pub compare-flip : (v w : VersionVector) → compare w v ≡ flip (compare v w)
compare-flip v w =
    (compare_iff (flip (compare v w)) w v).1 (Relates-flip (compare v w) v w (compare-Relates v w))

-- `dominates` holds exactly when no machine's time is less.
pub dominates_iff : (v w : VersionVector) → (dominates v w ≡ true) ↔ NoneLess v w
unfolding dominates
dominates_iff v w = go (compare v w) (compare-Relates v w)
  where
    go : (r : CausalRelation) → Relates r v w → ((is_equal r || is_after r) ≡ true) ↔ NoneLess v w
    go equal h = (λ _. h.0, λ _. refl)
    go before h = (λ e. cc, λ n. absurd (not-SomeLess-NoneLess v w h.0 n))
    go after h = (λ _. h.0, λ _. refl)
    go concurrent h = (λ e. cc, λ n. absurd (not-SomeLess-NoneLess v w h.0 n))

-- A vector that happened before another, which happened before a third, happened before the third.
before_trans :
    (u v w : VersionVector) → compare u v ≡ before → compare v w ≡ before → compare u w ≡ before
before_trans u v w p q =
    let ((k, lt), up) = (compare_iff before u v).0 p in
    let (_, up') = (compare_iff before v w).0 q in
    (compare_iff before u w).1 ((k, omega (arith, up' k)), λ j. omega (arith, up j, up' j))
