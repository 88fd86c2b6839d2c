-- ===== src/Compiler/Sort/Release.antt =====
-- The loop over the dependents of the step at the front.
use preflight.Base.{
  Bool-cases, List, String, [], arith, count, count-append, decrement, eq_iff, false, if◌then◌else◌,
  inl, inr, length, pos, refl, str_eq, true, ℕ, ◌&&◌, ◌++◌, ◌+◌, ◌==◌, ◌∷◌, ◌≡◌,
}
use preflight.GoMap.{has, put}
use preflight.GoMap.Laws.{lookup-put}
use preflight.Compiler.StepGraph.{StepGraph, list_at}
use preflight.Compiler.Sort.{Degrees, degree, is_zero, release}
use preflight.Compiler.Sort.Queue.{insert_sorted_lem}
use preflight.Compiler.Sort.Degrees.{pending}

module _ {World : Type 0} (g : StepGraph World) where
  abbrev pub left : List String → String → ℕ
  left done b = pending g done (list_at b g.depends_on)

  -- While the dependents in `ds` wait for their decrement: the degree of a step is the number of
  -- its dependencies that are not done, and of its places in `ds`; and the queue holds, each
  -- once, the steps of degree 0.
  pub record IsReleasing (done rest : List String) (m : Degrees) (ds : List String) : Type 0 where
    pub degrees : (b : String) → has b g.steps ≡ true → degree b m ≡ pos (left done b + count b ds)
    pub queued :
        (b : String)
        → count b (done ++ rest)
          ≡ (if has b g.steps && (left done b + count b ds == 0) then 1 else 0)

  skip :
      (done rest : List String) (m : Degrees) (d : String) (ds : List String)
      → has d g.steps ≡ false
      → IsReleasing done rest m (d ∷ ds)
      → IsReleasing done rest m ds
  unfolding count
  skip done rest m d ds absent h = record {
    degrees = λ b here. ground (arith, h.degrees b here, eq_iff d b);
    queued = λ b. ground (arith, h.queued b, eq_iff d b);
  }

  lower :
      (done rest : List String) (m : Degrees) (d : String) (ds : List String)
      → has d g.steps ≡ true
      → is_zero (decrement (degree d m)) ≡ false
      → IsReleasing done rest m (d ∷ ds)
      → IsReleasing done rest (put d (decrement (degree d m)) m) ds
  unfolding count
  lower done rest m d ds here more h = record {
    degrees = λ b hb. ground (
      arith,
      h.degrees b hb,
      h.degrees d here,
      eq_iff d b,
      eq_iff d d,
      lookup-put b d (decrement (degree d m)) m,
    );
    queued = λ b. ground (arith, h.queued b, h.degrees d here, eq_iff d b, eq_iff d d);
  }

  free :
      (done rest rest' : List String) (m : Degrees) (d : String) (ds : List String)
      → has d g.steps ≡ true
      → is_zero (decrement (degree d m)) ≡ true
      → ((b : String) → count b rest' ≡ count b rest + (if str_eq d b then 1 else 0))
      → IsReleasing done rest m (d ∷ ds)
      → IsReleasing done rest' (put d (decrement (degree d m)) m) ds
  unfolding count
  free done rest rest' m d ds here last more h = record {
    degrees = λ b hb. ground (
      arith,
      h.degrees b hb,
      h.degrees d here,
      eq_iff d b,
      eq_iff d d,
      lookup-put b d (decrement (degree d m)) m,
    );
    queued = λ b. ground (
      arith,
      h.queued b,
      h.degrees d here,
      eq_iff d b,
      eq_iff d d,
      more b,
      count-append b done rest,
      count-append b done rest',
    );
  }

  pub release_lem :
      (front : ℕ) (done : List String)
      → front + 1 ≡ length done
      → (ds rest : List String) (m : Degrees) → IsReleasing done rest m ds
      → (rest' : List String) × (m' : Degrees) × (release g front ds (done ++ rest, m)
          ≡ (done ++ rest', m'))
        × IsReleasing done rest' m' []
  unfolding release
  release_lem front done e [] rest m h = (rest, m, refl, h)
  release_lem front done e (d ∷ ds) rest m h = elim (Bool-cases (has d g.steps)) [
    | inr absent ↦ rw absent (release_lem front done e ds rest m (skip done rest m d ds absent h))
    | inl here ↦ elim (Bool-cases (is_zero (decrement (degree d m)))) [
      | inr more ↦
          rw (here, more)
            (release_lem front done e ds rest (put d (decrement (degree d m)) m)
              (lower done rest m d ds here more h))
      | inl last ↦
          let (r, placed, counted) = insert_sorted_lem done rest d in
          rw (here, last, e, placed)
            (release_lem front done e ds r (put d (decrement (degree d m)) m)
              (free done rest r m d ds here last counted h))
    ]
  ]
