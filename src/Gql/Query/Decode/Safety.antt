-- ===== src/Gql/Query/Decode/Safety.antt =====
-- DecodeQuery on any payload: no slice expression is out of range, and what it returns can be
-- encoded again.
use grimlocker_public.Base.{ℕ, ◌≤◌, ◌≢◌, List, length, All}
use grimlocker_public.Base.Dict.Distinct.{Distinct}
use grimlocker_public.Base.Outcome.{Outcome, ok, err}
use grimlocker_public.Wire.{IsBytes}
use grimlocker_public.Gql.Query.{Fields, Short, AreShort}
use grimlocker_public.Gql.Query.Decode.{DecodeError, panics}

-- A result that is no panic, and satisfies `P` if it is a value.
pub data Ensures {A : Type 0} (P : A → Type 0) : Outcome DecodeError A → Type 0 where
  returns : {a : A} → P a → Ensures P (ok a)
  refuses : {e : DecodeError} → e ≢ panics → Ensures P (err e)

module _ (p : List ℕ) (bytes : IsBytes p) where
  -- A string that was read, and the next offset.
  abbrev IsRead : List ℕ × ℕ → Type 0
  IsRead r = Short r.0 × (r.1 ≤ length p)

  -- The map that the loop has built: its strings fit, its keys differ, and there is room for the
  -- rounds that are left.
  abbrev IsMap : Fields → Type 0
  IsMap m = All AreShort m × Distinct m

  abbrev IsLoop : ℕ → Fields × ℕ → Type 0
  IsLoop bound r = IsMap r.0 × (length r.0 ≤ bound) × (r.1 ≤ length p)
