-- ===== src/Compiler/Sort/Degrees.antt =====
-- The in-degrees from which the sort starts.
use preflight.Base.{
  Bool, ℤ, Bool-cases, List, String, [], arith, count, eq_iff, if◌then◌else◌, increment, inl, inr,
  member, not, pos, refl, str_eq, suc, true, ℕ, ◌&&◌, ◌*◌, ◌+◌, ◌||◌, ◌∷◌, ◌≡◌, ap, false, subst,
  sym, ◌∙◌,
}
use preflight.GoMap.{lookup, IsMap, has, put, keys}
use preflight.GoMap.Laws.{lookup-put, put-IsMap, count-keys, member-keys}
use preflight.Compiler.StepGraph.{StepGraph, list_at}
use preflight.Compiler.Sort.{
  Degrees, count_degrees, count_deps, degree, zero_degrees, in_degrees, is_zero, ready_ids,
}

zero_degrees-degree :
    (b : String) (ids : List String) (m : Degrees)
    → degree b m ≡ pos 0
    → degree b (zero_degrees ids m) ≡ pos 0
unfolding zero_degrees
zero_degrees-degree b [] m h = h
zero_degrees-degree b (id ∷ ids) m h =
    zero_degrees-degree b ids (put id (pos 0) m) (ground (arith, lookup-put b id (pos 0) m))

zero_degrees-has :
    (b : String) (ids : List String) (m : Degrees)
    → has b (zero_degrees ids m) ≡ (member b ids || has b m)
unfolding zero_degrees
zero_degrees-has b [] m = refl
zero_degrees-has b (id ∷ ids) m =
    ground (arith, zero_degrees-has b ids (put id (pos 0) m), lookup-put b id (pos 0) m)

zero_degrees-IsMap : (ids : List String) (m : Degrees) → IsMap m → IsMap (zero_degrees ids m)
unfolding zero_degrees
zero_degrees-IsMap [] m h = h
zero_degrees-IsMap (id ∷ ids) m h =
    zero_degrees-IsMap ids (put id (pos 0) m) (put-IsMap id (pos 0) m h)

module _ {World : Type 0} (g : StepGraph World) where
  -- A dependency that is in the graph and not among the processed steps.
  abbrev pub is_pending : List String → String → Bool
  is_pending done d = has d g.steps && not (member d done)

  -- How many of the dependencies are.
  unfoldable pub pending : List String → List String → ℕ
  pending done [] = 0
  pending done (d ∷ ds) = (if is_pending done d then 1 else 0) + pending done ds

  count_deps-degree :
      (id b : String) (deps : List String) (m : Degrees) (n : ℕ)
      → degree id m ≡ pos n
      → degree b (count_deps g id deps m)
        ≡ (if str_eq id b then pos (n + pending [] deps) else degree b m)
  unfolding count_deps pending
  count_deps-degree id b [] m n h = ground (arith, eq_iff id b)
  count_deps-degree id b (d ∷ ds) m n h = elim (Bool-cases (has d g.steps)) [
    | inl here ↦ rw here (
        ground (
          arith,
          here,
          count_deps-degree id b ds (put id (increment (degree id m)) m) (suc n),
          lookup-put id id (increment (degree id m)) m,
          lookup-put b id (increment (degree id m)) m,
          eq_iff id b,
          eq_iff id id,
        ))
    | inr absent ↦ rw absent (ground (arith, absent, count_deps-degree id b ds m n))
  ]

  count_deps-has :
      (id b : String) (deps : List String) (m : Degrees)
      → has id m ≡ true
      → has b (count_deps g id deps m) ≡ has b m
  unfolding count_deps
  count_deps-has id b [] m h = refl
  count_deps-has id b (d ∷ ds) m h = elim (Bool-cases (has d g.steps)) [
    | inl here ↦ rw here (
        ground (
          arith,
          here,
          count_deps-has id b ds (put id (increment (degree id m)) m),
          lookup-put id id (increment (degree id m)) m,
          lookup-put b id (increment (degree id m)) m,
          eq_iff id b,
          eq_iff id id,
        ))
    | inr absent ↦ rw absent (count_deps-has id b ds m h)
  ]

  count_deps-IsMap :
      (id : String) (deps : List String) (m : Degrees) → IsMap m → IsMap (count_deps g id deps m)
  unfolding count_deps
  count_deps-IsMap id [] m h = h
  count_deps-IsMap id (d ∷ ds) m h = elim (Bool-cases (has d g.steps)) [
    | inl here ↦ rw here (count_deps-IsMap id ds _ (put-IsMap id (increment (degree id m)) m h))
    | inr absent ↦ rw absent (count_deps-IsMap id ds m h)
  ]

  count_degrees-degree :
      (ids : List String) (m : Degrees) (f : String → ℕ)
      → ((b : String) → degree b m ≡ pos (f b))
      → (b : String)
      → degree b (count_degrees g ids m)
        ≡ pos (f b + count b ids * pending [] (list_at b g.depends_on))
  unfolding count_degrees count
  count_degrees-degree [] m f h b = grind (arith, h b)
  count_degrees-degree (id ∷ ids) m f h b =
      let deps = list_at id g.depends_on in
      let f' : String → ℕ = λ a. if str_eq id a then f id + pending [] deps else f a in
      let step : (a : String) → degree a (count_deps g id deps m) ≡ pos (f' a) =
        λ a. ground (arith, count_deps-degree id a deps m (f id) (h id), h a, eq_iff id a) in
      count_degrees-degree ids (count_deps g id deps m) f' step b ∙ ap pos (again id ids f b)
    where
      again :
          (id : String) (ids : List String) (f : String → ℕ) (b : String)
          → (if str_eq id b then f id + pending [] (list_at id g.depends_on) else f b)
              + count b ids * pending [] (list_at b g.depends_on)
            ≡ f b
              + ((if str_eq id b then 1 else 0) + count b ids) * pending [] (list_at b g.depends_on)
      again id ids f b = elim (Bool-cases (str_eq id b)) [
        | inl same ↦ rw same (
            let e = (eq_iff id b).0 same in
            subst
              (λ a.
                f a
                  + pending [] (list_at a g.depends_on)
                  + count b ids * pending [] (list_at b g.depends_on)
                ≡ f b + (1 + count b ids) * pending [] (list_at b g.depends_on))
              (sym e) (grind arith))
        | inr other ↦ rw other (grind arith)
      ]

  count_degrees-has :
      (b : String) (ids : List String) (m : Degrees)
      → ((a : String) → member a ids ≡ true → has a m ≡ true)
      → has b (count_degrees g ids m) ≡ has b m
  unfolding count_degrees
  count_degrees-has b [] m h = refl
  count_degrees-has b (id ∷ ids) m h =
      let deps = list_at id g.depends_on in
      let known = h id (ground (arith, eq_iff id id)) in
      count_degrees-has b ids (count_deps g id deps m)
        (λ a ma. ground (arith, count_deps-has id a deps m known, h a))
      ∙ count_deps-has id b deps m known

  count_degrees-IsMap : (ids : List String) (m : Degrees) → IsMap m → IsMap (count_degrees g ids m)
  unfolding count_degrees
  count_degrees-IsMap [] m h = h
  count_degrees-IsMap (id ∷ ids) m h =
      count_degrees-IsMap ids (count_deps g id (list_at id g.depends_on) m)
        (count_deps-IsMap id (list_at id g.depends_on) m h)

  -- At the start each step has as its degree the number of its dependencies in the graph.
  pub in_degrees_lem :
      IsMap g.steps
      → (b : String)
      → (degree b (in_degrees g)
          ≡ pos ((if has b g.steps then 1 else 0) * pending [] (list_at b g.depends_on)))
        × (has b (in_degrees g) ≡ has b g.steps)
  unfolding in_degrees
  in_degrees_lem is_map b =
      let ids = keys g.steps in
      let zeros = zero_degrees ids [] in
      let all_zero : (a : String) → degree a zeros ≡ pos 0 =
        λ a. zero_degrees-degree a ids [] (unfold lookup in refl) in
      let all_known : (a : String) → has a zeros ≡ member a ids =
        λ a. zero_degrees-has a ids [] ∙ ground (arith, no_entry a) in
      (
        rw (← count-keys b g.steps is_map)
            (count_degrees-degree ids zeros (λ _. 0) all_zero b ∙ ap pos (omega arith)),
        count_degrees-has b ids zeros (λ a ma. all_known a ∙ ma)
            ∙ all_known b
            ∙ member-keys b g.steps,
      )
    where
      no_entry : (a : String) → has {V = ℤ} a [] ≡ false
      no_entry a = unfold lookup in refl

  pub in_degrees-IsMap : IsMap (in_degrees g)
  unfolding in_degrees
  in_degrees-IsMap =
      count_degrees-IsMap (keys g.steps) (zero_degrees (keys g.steps) [])
        (zero_degrees-IsMap (keys g.steps) [] tt)

  pub count-ready_ids :
      (b : String) (m : Degrees)
      → IsMap m
      → count b (ready_ids g m) ≡ (if has b m && is_zero (degree b m) then 1 else 0)
  unfolding ready_ids count lookup
  count-ready_ids b [] h = refl
  count-ready_ids b ((id, d) ∷ m) h = ground (arith, count-ready_ids b m h.1, eq_iff id b)
