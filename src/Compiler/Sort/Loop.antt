-- ===== src/Compiler/Sort/Loop.antt =====
-- The main loop of the sort.
use preflight.Base.{
  List, Option, String, [], ap, arith, count, count-append, eq_iff, false, get_elem?, if◌then◌else◌,
  length, length-append, length-le_of_count, map, member, member-append, member-count, none, refl,
  some, suc, true, zero, ℕ, ◌&&◌, ◌++◌, ◌+◌, ◌<◌, ◌==◌, ◌∷◌, ◌≡◌, ◌≤◌, sym,
}
use mathlib.Core.List.{append-nil, append_assoc}
use preflight.GoMap.{lookup, IsMap, has, keys}
use preflight.GoMap.Laws.{count-keys, length-keys}
use preflight.Compiler.Step.{Step}
use preflight.Compiler.StepGraph.{StepGraph, list_at}
use preflight.Compiler.StepGraph.Invariant.{IsGraph}
use preflight.Compiler.Sort.{Degrees, sort_loop}
use preflight.Compiler.Sort.Degrees.{pending}
use preflight.Compiler.Sort.Release.{IsReleasing, left, release_lem}

module _ {World : Type 0} (g : StepGraph World) where
  pending-snoc :
      (done : List String) (x : String) (deps : List String)
      → has x g.steps ≡ true
      → member x done ≡ false
      → pending g (done ++ x ∷ []) deps + count x deps ≡ pending g done deps
  unfolding pending count
  pending-snoc done x [] here new = omega arith
  pending-snoc done x (d ∷ ds) here new = ground (
    arith,
    pending-snoc done x ds here new,
    member-append d done (x ∷ []),
    eq_iff d x,
    eq_iff x d,
  )

  -- Each step of the list stands behind those of its dependencies that are in the graph; the
  -- steps in `seen` stand before the list.
  abbrev pub IsOrdered : List String → List String → Type 0
  IsOrdered seen [] = Unit
  IsOrdered seen (x ∷ xs) = (left g seen x ≡ 0) × IsOrdered (seen ++ x ∷ []) xs

  IsOrdered-snoc :
      (seen xs : List String) (x : String)
      → IsOrdered seen xs
      → left g (seen ++ xs) x ≡ 0
      → IsOrdered seen (xs ++ x ∷ [])
  IsOrdered-snoc seen [] x h e = (rw append-nil at e, tt)
  IsOrdered-snoc seen (y ∷ ys) x h e =
      (h.0, IsOrdered-snoc (seen ++ y ∷ []) ys x h.1 (rw (append_assoc seen (y ∷ []) ys) e))

  -- What the entry at the front has to offer.
  front_lem :
      (done rest : List String) (x : String) (m : Degrees)
      → IsReleasing g done (x ∷ rest) m []
      → (has x g.steps ≡ true) × (member x done ≡ false) × (left g done x ≡ 0)
  unfolding count
  front_lem done rest x m h =
      let placed = h.queued x in
      let split = count-append x done (x ∷ rest) in
      let seen = member-count x done in
      (
        ground (arith, placed, split, eq_iff x x),
        ground (arith, placed, split, seen, eq_iff x x),
        ground (arith, placed, split, eq_iff x x),
      )

  take_front :
      (done rest : List String) (x : String) (m : Degrees)
      → IsGraph g
      → IsReleasing g done (x ∷ rest) m []
      → IsReleasing g (done ++ x ∷ []) rest m (list_at x g.depended_by)
  take_front done rest x m graph h =
      let (here, new, _) = front_lem done rest x m h in
      record {
        degrees = λ b hb.
            unfold count in
            ground (
              arith,
              h.degrees b hb,
              pending-snoc done x (list_at b g.depends_on) here new,
              graph.dual x b,
            );
        queued = λ b.
            unfold count in
            ground (
              arith,
              h.queued b,
              pending-snoc done x (list_at b g.depends_on) here new,
              graph.dual x b,
              count-append b (done ++ x ∷ []) rest,
              count-append b done (x ∷ []),
              count-append b done (x ∷ rest),
            );
      }

  -- The queue is never longer than the graph has steps.
  queue_short :
      (done rest : List String) (m : Degrees)
      → IsMap g.steps
      → IsReleasing g done rest m []
      → length (done ++ rest) ≤ length g.steps
  queue_short done rest m is_map h = rw (← length-keys g.steps) (
      length-le_of_count (done ++ rest) (keys g.steps)
        λ a. ground (arith, h.queued a, count-keys a g.steps is_map))

  get_elem?-front :
      (done rest : List String) (x : String) → get_elem? (done ++ x ∷ rest) (length done) ≡ some x
  get_elem?-front [] rest x = refl
  get_elem?-front (y ∷ ys) rest x = get_elem?-front ys rest x

  get_elem?-end : (done : List String) → get_elem? (done ++ []) (length done) ≡ none
  get_elem?-end [] = refl
  get_elem?-end (y ∷ ys) = get_elem?-end ys

  -- The steps of a list of IDs.
  abbrev pub refs : List String → List (Option (Step World))
  refs ids = map (λ id. lookup id g.steps) ids

  refs-snoc :
      (xs : List String) (x : String) → refs (xs ++ x ∷ []) ≡ refs xs ++ lookup x g.steps ∷ []
  refs-snoc [] x = refl
  refs-snoc (y ∷ ys) x = ap (λ l. lookup y g.steps ∷ l) (refs-snoc ys x)

  -- With one round for each step that is not done, and one more, the loop ends. What it has
  -- sorted is ordered, and holds exactly the steps that have no dependency left, each once.
  pub sort_loop_lem :
      (fuel : ℕ) (done rest : List String) (m : Degrees)
      → IsGraph g
      → length g.steps < length done + fuel
      → IsReleasing g done rest m []
      → IsOrdered [] done
      → (order : List String) × (sort_loop g fuel (length done) (done ++ rest, m) (refs done)
          ≡ some (refs order))
        × IsOrdered [] order
        × ((b : String) → count b order ≡ (if has b g.steps && (left g order b == 0) then 1 else 0))
  unfolding sort_loop
  sort_loop_lem zero done rest m graph enough h ordered =
      absurd (omega (arith, queue_short done rest m graph.steps_map h, length-append {0} done rest))
  sort_loop_lem (suc fuel) done [] m graph enough h ordered = (
    done,
    rw (get_elem?-end done, sort_loop),
    ordered,
    λ b. unfold count in ground (arith, h.queued b, count-append b done []),
  )
  sort_loop_lem (suc fuel) done (x ∷ rest) m graph enough h ordered =
      let (_, _, free) = front_lem done rest x m h in
      let done' = done ++ x ∷ [] in
      let (rest', m', released, h') =
        release_lem g (length done) done' (omega (arith, length-append {0} done (x ∷ [])))
          (list_at x g.depended_by) rest m (take_front done rest x m graph h) in
      let (order, sorted, good, counts) =
        sort_loop_lem fuel done' rest' m' graph (omega (arith, length-append {0} done (x ∷ []))) h'
          (IsOrdered-snoc [] done x ordered free) in
      let next : length done + 1 ≡ length done' = omega (arith, length-append {0} done (x ∷ [])) in
      let moved : done ++ x ∷ rest ≡ done' ++ rest = sym (append_assoc done (x ∷ []) rest) in
      (
        order,
        rw (get_elem?-front done rest x, sort_loop)
            (rw (moved, released, next, ← refs-snoc done x) sorted),
        good,
        counts,
      )
