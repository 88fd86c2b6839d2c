-- ===== src/Compiler/Sort/Correct.antt =====
-- What `TopologicalSort` returns.
use preflight.Base.{
  Bool, Bool-cases, Has, List, String, [], arith, count, count-sort_strings, eq_iff, false,
  if◌then◌else◌, inl, inr, length, length-le_of_count, member, member-count, missing_of_count, not,
  refl, some, sort_strings, subst, suc, true, ◌&&◌, ◌++◌, ◌<◌, ◌==◌, ◌∷◌, ◌≡◌, ◌≤◌, ◌⊎◌, Has-append,
  ap, count_of_length, ◌↔◌,
}
use mathlib.Core.List.{append-nil, append_assoc}
use preflight.GoMap.{IsMap, has, keys}
use preflight.GoMap.Laws.{count-keys, length-keys}
use preflight.Compiler.StepGraph.{StepGraph, cyclic_dependency, list_at}
use preflight.Compiler.StepGraph.Invariant.{IsGraph}
use preflight.Compiler.Sort.{ok, err, in_degrees, ready_ids, topological_sort}
use preflight.Compiler.Sort.Degrees.{
  pending, count-ready_ids, in_degrees-IsMap, in_degrees_lem, is_pending,
}
use preflight.Compiler.Sort.Release.{IsReleasing, left}
use preflight.Compiler.Sort.Loop.{sort_loop_lem, IsOrdered, refs}

module _ {World : Type 0} (g : StepGraph World) where
  -- The dependencies that are in the graph all stand in `seen`.
  abbrev pub AreMet : List String → List String → Type 0
  AreMet seen deps = (d : String) → Has d deps → has d g.steps ≡ true → Has d seen

  -- Each entry's dependencies stand before it.
  abbrev pub StandsAfterDeps : List String → List String → Type 0
  StandsAfterDeps seen [] = Unit
  StandsAfterDeps seen (x ∷ xs) =
      AreMet seen (list_at x g.depends_on) × StandsAfterDeps (seen ++ x ∷ []) xs

  -- An order of all steps, each once, in which every step stands behind its dependencies.
  pub record IsTopological (order : List String) : Type 0 where
    pub complete : (b : String) → count b order ≡ count b (keys g.steps)
    pub after_deps : StandsAfterDeps [] order

  -- Some steps each of which depends on one of them: what a cycle amounts to in a finite graph.
  pub record IsStuck (among : String → Bool) : Type 0 where
    pub member_id : String
    pub is_member : among member_id ≡ true
    pub are_steps : (b : String) → among b ≡ true → has b g.steps ≡ true
    pub next_id : (b : String) → among b ≡ true → String
    pub depends :
        (b : String) (h : among b ≡ true)
        → Has (next_id b h) (list_at b g.depends_on) × (among (next_id b h) ≡ true)

  Has-member : (d : String) (xs : List String) → member d xs ≡ true → Has d xs
  Has-member d [] h = cc
  Has-member d (x ∷ xs) h = ground (arith, eq_iff x d, Has-member d xs)

  pending-AreMet : (seen deps : List String) → pending g seen deps ≡ 0 → AreMet seen deps
  unfolding pending
  pending-AreMet seen [] e d h here = absurd h
  pending-AreMet seen (x ∷ xs) e d h here = elim h [
    | inl same ↦ Has-member d seen (subst (λ y. member y seen ≡ true) same (ground (arith, same)))
    | inr later ↦ pending-AreMet seen xs (ground arith) d later here
  ]

  IsOrdered-StandsAfterDeps :
      (seen xs : List String) → IsOrdered g seen xs → StandsAfterDeps seen xs
  IsOrdered-StandsAfterDeps seen [] h = tt
  IsOrdered-StandsAfterDeps seen (x ∷ xs) h = (
    pending-AreMet seen (list_at x g.depends_on) h.0,
    IsOrdered-StandsAfterDeps (seen ++ x ∷ []) xs h.1,
  )

  -- A dependency that is pending.
  pending_dep :
      (done deps : List String)
      → (pending g done deps == 0) ≡ false
      → (d : String) × Has d deps × (has d g.steps ≡ true) × (member d done ≡ false)
  unfolding pending
  pending_dep done [] h = cc
  pending_dep done (x ∷ xs) h = elim (Bool-cases (is_pending g done x)) [
    | inl waits ↦ (x, inl refl, ground arith, ground arith)
    | inr met ↦ let (d, m, here, new) = pending_dep done xs (ground arith) in (d, inr m, here, new)
  ]

  -- The steps that the loop did not reach.
  abbrev unsorted : List String → String → Bool
  unsorted order b = has b g.steps && not (left g order b == 0)

  unsorted-IsStuck :
      (order : List String)
      → IsMap g.steps
      → ((b : String) → count b order ≡ (if has b g.steps && (left g order b == 0) then 1 else 0))
      → length order < length g.steps
      → IsStuck (unsorted order)
  unsorted-IsStuck order is_map counts short =
      let (b, fewer) =
        missing_of_count (keys g.steps) order
          (λ a. ground (arith, counts a, count-keys a g.steps is_map))
          (rw (length-keys g.steps) short) in
      record {
        member_id = b;
        is_member = ground (arith, counts b, count-keys b g.steps is_map);
        are_steps = λ a h. ground arith;
        next_id = λ a h. (next a h).0;
        depends = λ a h.
            let (d, m, here, new) = next a h in (m, ground (arith, counts d, member-count d order));
      }
    where
      next :
          (a : String)
          → unsorted order a ≡ true
          → (d : String) × Has d (list_at a g.depends_on)
            × (has d g.steps ≡ true)
            × (member d order ≡ false)
      next a h = pending_dep order (list_at a g.depends_on) (ground arith)

  length-refs : (xs : List String) → length (refs g xs) ≡ length xs
  length-refs [] = refl
  length-refs (x ∷ xs) = ap suc (length-refs xs)

  start_lem :
      IsGraph g → IsReleasing g [] (sort_strings (ready_ids g (in_degrees g))) (in_degrees g) []
  start_lem graph = record {
    degrees =
        λ b here. unfold count in ground (arith, (in_degrees_lem g graph.steps_map b).0, here);
    queued = λ b.
        let (d, known) = in_degrees_lem g graph.steps_map b in
        unfold count in
        ground (
          arith,
          d,
          known,
          count-sort_strings b (ready_ids g (in_degrees g)),
          count-ready_ids g b (in_degrees g) (in_degrees-IsMap g),
        );
  }

  -- For a graph that was built by `add_step` the sort always ends, and either returns an order of
  -- all steps, each once, in which every step stands behind its dependencies in the graph, or
  -- reports a cycle, and then there are steps that wait for one another.
  pub topological_sort_lem :
      IsGraph g
      → ((order : List String) × (topological_sort g ≡ some (ok (refs g order)))
          × IsTopological order)
        ⊎ ((among : String → Bool) × (topological_sort g ≡ some (err cyclic_dependency))
            × IsStuck among)
  unfolding topological_sort
  topological_sort_lem graph =
      let (order, sorted, ordered, counts) =
        sort_loop_lem g (suc (length g.steps)) [] (sort_strings (ready_ids g (in_degrees g)))
          (in_degrees g) graph (omega arith) (start_lem graph) tt in
      let bound : (a : String) → count a order ≤ count a (keys g.steps) =
        λ a. ground (arith, counts a, count-keys a g.steps graph.steps_map) in
      let at_most = length-le_of_count order (keys g.steps) bound in
      let len = length-refs order in
      elim (Bool-cases (length order == length g.steps)) [
        | inl full ↦ inl (
          order,
          rw sorted (rw (len, full)),
          record {
            complete =
                count_of_length order (keys g.steps) bound
                  (ground (arith, full, length-keys g.steps));
            after_deps = IsOrdered-StandsAfterDeps [] order ordered;
          },
        )
        | inr short ↦ inr (
          unsorted order,
          rw sorted (rw (len, short)),
          unsorted-IsStuck order graph.steps_map counts
              (ground (arith, short, at_most, length-keys g.steps)),
        )
      ]

  -- No order of that kind exists where steps wait for one another.
  IsStuck-next_later :
      (among : String → Bool) (stuck : IsStuck among) (seen xs : List String)
      → ((b : String) → Has b seen → among b ≡ false)
      → StandsAfterDeps seen xs
      → (b : String) → Has b (seen ++ xs)
      → among b ≡ false
  IsStuck-next_later among stuck seen [] h after b m = h b (rw append-nil at m)
  IsStuck-next_later among stuck seen (x ∷ xs) h after b m =
      let free : among x ≡ false = elim (Bool-cases (among x)) [
        | inl waits ↦
            let (dep, also) = stuck.depends x waits in
            cc (h (stuck.next_id x waits) (after.0 _ dep (stuck.are_steps _ also)), also)
        | inr free ↦ free
      ] in
      IsStuck-next_later among stuck (seen ++ x ∷ []) xs
        (λ a ma. elim (Has-append a seen (x ∷ []) ma) [
          | inl old ↦ h a old
          | inr new ↦ elim new [
            | inl e ↦ subst (λ y. among y ≡ false) e free
            | inr none_left ↦ absurd none_left
          ]
        ])
        after.1 b (rw (append_assoc seen (x ∷ []) xs) m)

  not-IsTopological-IsStuck :
      (order : List String) (among : String → Bool)
      → IsMap g.steps
      → IsTopological order
      → IsStuck among
      → ⊥
  not-IsTopological-IsStuck order among is_map t stuck =
      let b = stuck.member_id in
      let here = stuck.are_steps b stuck.is_member in
      let placed =
        Has-member b order
          (ground (arith, here, member-count b order, t.complete b, count-keys b g.steps is_map)) in
      cc (
        IsStuck-next_later among stuck [] order (λ a m. absurd m) t.after_deps b placed,
        stuck.is_member,
      )

  -- For a graph that was built by `add_step`, a cycle is reported exactly if some steps wait for
  -- one another.
  pub topological_sort-cyclic_iff :
      IsGraph g
      → (topological_sort g ≡ some (err cyclic_dependency))
        ↔ ((among : String → Bool) × IsStuck among)
  topological_sort-cyclic_iff graph = elim (topological_sort_lem graph) [
    | inl (order, sorted, t) ↦ (
      λ reported. cc (sorted, reported),
      λ (among, stuck). absurd (not-IsTopological-IsStuck order among graph.steps_map t stuck),
    )
    | inr (among, reported, stuck) ↦ (λ _. (among, stuck), λ _. reported)
  ]
