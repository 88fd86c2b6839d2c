-- ===== src/Base/Failing.antt =====
-- Go's `(T, error)` for the functions that return a value or an error, never both.

pub data Fallible (E A : Type 0) : Type 0 where
  returns : A → Fallible E A
  fails : E → Fallible E A

infix 10 ◌>>=◌
-- `if err != nil { return err }`
abbrev pub ◌>>=◌ : {E A B : Type 0} → Fallible E A → (A → Fallible E B) → Fallible E B
returns a >>= f = f a
fails e >>= f = fails e

-- `fmt.Errorf("...: %w", err)`, and errors that are passed on to a caller with more of them.
abbrev pub map_error : {E F A : Type 0} → (E → F) → Fallible E A → Fallible F A
map_error f (returns a) = returns a
map_error f (fails e) = fails (f e)
