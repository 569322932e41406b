-- ===== src/Base/Maybe.antt =====
-- Chains of calls of which each may panic: `none` is a run-time panic of the Go program.
use mathlib.Core.Option.{Option, none, some}

infixl 5 ◌>>=◌
abbrev pub ◌>>=◌ {ℓ κ} : {A : Type ℓ} {B : Type κ} → Option A → (A → Option B) → Option B
none >>= f = none
some a >>= f = f a
