-- ===== src/Execution/Executor/Undo.antt =====
-- What a rollback does to the machine, step by step.
use mathlib.Core.List.{append-nil, append_assoc}
use preflight.Base.{
  String, Bool-cases, List, Option, [], false, inl, inr, none, not, refl, reverse, some, subst, sym,
  true, ◌++◌, ◌∙◌, ◌∷◌, ◌≡◌, ◌⊎◌,
}
use preflight.GoMap.{is_some}
use preflight.Compiler.Step.{Rollbackable, Step}
use preflight.Execution.Executor.{
  after_rollback, rollback_ref, RollbackResult, rollback_steps, rollback_each, GoContext,
}

module _ {World : Type 0} where
  -- A step that does not support a rollback, or that says that it cannot be rolled back now.
  abbrev pub IsKeptBy : Step World → World → Type 0
  IsKeptBy s w =
      (s.rollbackable ≡ none)
      ⊎ ((f : Rollbackable World) × (s.rollbackable ≡ some f) × (f.can_rollback w ≡ false))

  -- The rollback of one step at `w`: its `Rollback` leaves `w'` and gives the error, or nothing
  -- happens and no error is reported.
  abbrev pub IsUndone : Step World → World → RollbackResult → World → Type 0
  IsUndone s w r w' =
      (r.step_id ≡ s.id)
      × (((f : Rollbackable World) × (s.rollbackable ≡ some f)
            × (f.can_rollback w ≡ true)
            × (f.rollback w ≡ (r.error, w'))
            × (r.success ≡ not (is_some r.error)))
          ⊎ (IsKeptBy s w × (r.success ≡ false) × (r.error ≡ none) × (w' ≡ w)))

  -- The steps are rolled back one behind the other.
  abbrev pub Undoes : List (Step World) → World → List RollbackResult → World → Type 0
  Undoes [] w rs w' = (rs ≡ []) × (w' ≡ w)
  Undoes (s ∷ ss) w rs w' =
      (r : RollbackResult) × (v : World) × (rest : List RollbackResult) × IsUndone s w r v
      × Undoes ss v rest w'
      × (rs ≡ r ∷ rest)

module _ {World : Type 0} (ctx : GoContext World) where
  after_rollback-IsUndone :
      (s : Step World) (f : Rollbackable World) (w : World) (out : Option String × World)
      → s.rollbackable ≡ some f
      → f.can_rollback w ≡ true
      → f.rollback w ≡ out
      → IsUndone s w (after_rollback ctx s.id w out).0 (after_rollback ctx s.id w out).1
  after_rollback-IsUndone s f w (none, w') own can e = (refl, inl (f, own, can, e, refl))
  after_rollback-IsUndone s f w (some m, w') own can e = (refl, inl (f, own, can, e, refl))

  rollback_ref-IsUndone :
      (s : Step World) (o : Option (Rollbackable World)) (w : World)
      → s.rollbackable ≡ o
      → IsUndone s w (rollback_ref ctx s.id o w).0 (rollback_ref ctx s.id o w).1
  rollback_ref-IsUndone s none w own = (refl, inr (inl own, refl, refl, refl))
  rollback_ref-IsUndone s (some f) w own = elim (Bool-cases (f.can_rollback w)) [
    | inl can ↦ rw can (after_rollback-IsUndone s f w (f.rollback w) own can refl)
    | inr cannot ↦ rw cannot (refl, inr (inr (f, own, cannot), refl, refl, refl))
  ]

  rollback_each-Undoes :
      (steps : List (Step World)) (results : List RollbackResult) (w : World)
      → (rest : List RollbackResult) × ((rollback_each ctx steps results w).0 ≡ results ++ rest)
        × Undoes steps w rest (rollback_each ctx steps results w).1
  unfolding rollback_each
  rollback_each-Undoes [] results w = ([], sym (append-nil results), (refl, refl))
  rollback_each-Undoes (s ∷ ss) results w =
      let out = rollback_ref ctx s.id s.rollbackable w in
      let (rest, listed, undone) = rollback_each-Undoes ss (results ++ out.0 ∷ []) out.1 in
      (
        out.0 ∷ rest,
        listed ∙ append_assoc results (out.0 ∷ []) rest,
        (out.0, out.1, rest, rollback_ref-IsUndone s s.rollbackable w refl, undone, refl),
      )

  pub rollback_steps-Undoes :
      (steps : List (Step World)) (w : World)
      → Undoes (reverse steps) w (rollback_steps ctx steps w).0 (rollback_steps ctx steps w).1
  unfolding rollback_steps
  rollback_steps-Undoes steps w =
      let (rest, listed, undone) = rollback_each-Undoes (reverse steps) [] w in
      subst (λ rs. Undoes (reverse steps) w rs (rollback_each ctx (reverse steps) [] w).1)
        (sym listed) undone
