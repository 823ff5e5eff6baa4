-- ===== src/Cluster/Monad.antt =====
-- Sequences of calls that may fail: Go's `(T, error)` with an early return on an error.
use dploy.Prelude.{◌∷◌}
use dploy.Cluster.Calls.{Error, Result, ok, err, Call, Log}

abbrev pub M : Type 0 → Type 0
M A = Log → Result A × Log

infixl 5 ◌>>=◌ ◌>>◌
abbrev pub ◌>>=◌ : {A B : Type 0} → M A → (A → M B) → M B
◌>>=◌ m f log = let (r, log') = m log in elim r [ ok a ↦ f a log' | err e ↦ (err e, log') ]

abbrev pub ◌>>◌ : {A B : Type 0} → M A → M B → M B
◌>>◌ m k log = let (r, log') = m log in elim r [ ok a ↦ k log' | err e ↦ (err e, log') ]

abbrev pub pure : {A : Type 0} → A → M A
pure a log = (ok a, log)

abbrev pub done : M (Unit {0})
done = pure tt

abbrev pub fail : {A : Type 0} → Error → M A
fail e log = (err e, log)

-- The error as a value, for code that looks at it.
abbrev pub attempt : {A : Type 0} → M A → M (Result A)
attempt m log = let (r, log') = m log in (ok r, log')

-- One call: its answer, and the log with it.
abbrev pub ask : {A : Type 0} → Call → (Log → Result A) → M A
ask c answer log = (answer log, c ∷ log)
