-- ===== src/Base/Outcome.antt =====
-- A Go function's `(value, error)` pair: a value, or an error.
use mathlib.Core.Path.{◌≡◌, refl}
use mathlib.Core.Bool.{Bool, true, false}
use mathlib.Core.Logic.{◌↔◌}

-- A failure comes first: the code returns early.
pub data Outcome (E A : Type 0) : Type 0 where
  err : E → Outcome E A
  ok : A → Outcome E A

module _ {E A B : Type 0} where
  infixl 5 ◌>>=◌
  abbrev pub ◌>>=◌ : Outcome E A → (A → Outcome E B) → Outcome E B
  err why >>= next = err why
  ok got >>= next = next got

  -- Inversion of a chain that succeeds.
  pub >>=-eq-ok :
      {b : B} (first : Outcome E A) (next : A → Outcome E B)
      → (first >>= next) ≡ ok b
      → (got : A) × (first ≡ ok got) × (next got ≡ ok b)
  >>=-eq-ok (err why) next p = cc
  >>=-eq-ok (ok got) next p = (got, refl, p)

infixl 5 ◌>>◌
abbrev pub ◌>>◌ : {E B : Type 0} → Outcome E (Unit {0}) → Outcome E B → Outcome E B
check >> next = check >>= λ passed. next

-- `if c { return err }`
abbrev pub fail_if : {E : Type 0} → Bool → E → Outcome E (Unit {0})
fail_if true e = err e
fail_if false e = ok tt

-- `fmt.Errorf("…: %w", err)`
abbrev pub map_err : {E F A : Type 0} → (E → F) → Outcome E A → Outcome F A
map_err f (ok a) = ok a
map_err f (err e) = err (f e)

pub >>-eq-ok :
    {E B : Type 0} (m : Outcome E (Unit {0})) (k : Outcome E B) {b : B}
    → (m >> k) ≡ ok b
    → (m ≡ ok tt) × (k ≡ ok b)
>>-eq-ok (ok tt) k h = (refl, h)
>>-eq-ok (err e) k h = cc

pub fail_if-eq-ok : {E : Type 0} (c : Bool) (e : E) → fail_if c e ≡ ok tt → c ≡ false
fail_if-eq-ok true e h = cc
fail_if-eq-ok false e h = refl

-- A guard in front of a chain that succeeds was not met.
pub guard-eq-ok :
    {E B : Type 0} (c : Bool) (e : E) (k : Outcome E B) {b : B}
    → (fail_if c e >> k) ≡ ok b
    → (c ≡ false) × (k ≡ ok b)
guard-eq-ok true e k h = cc
guard-eq-ok false e k h = (refl, h)

-- What it takes for a chain of checks to pass.
pub >>-iff :
    {E P Q : Type 0} {m k : Outcome E (Unit {0})}
    → ((m ≡ ok tt) ↔ P)
    → ((k ≡ ok tt) ↔ Q)
    → ((m >> k) ≡ ok tt) ↔ (P × Q)
>>-iff {m} {k} i j =
    (λ h. let (p, q) = >>-eq-ok m k h in (i.0 p, j.0 q), λ (p, q). rw (i.1 p) (j.1 q))

pub guard_iff : {E : Type 0} (c : Bool) (e : E) → (fail_if c e ≡ ok tt) ↔ (c ≡ false)
guard_iff true e = (λ h. cc, λ h. cc)
guard_iff false e = (λ h. refl, λ h. refl)

pub done_iff : {E : Type 0} → let done : Outcome E (Unit {0}) = ok tt in (done ≡ ok tt) ↔ Unit {0}
done_iff = (λ h. tt, λ h. refl)

pub map_err-eq-ok :
    {E F A : Type 0} (f : E → F) (m : Outcome E A) {a : A} → map_err f m ≡ ok a → m ≡ ok a
map_err-eq-ok f (err e) h = cc
map_err-eq-ok f (ok a) h = cc

-- Inversion of a chain of three calls, of which the last two see the result of the first.
pub three-eq-ok :
    {E A B C D : Type 0} (a : Outcome E A) (f : A → Outcome E B) (g : A → Outcome E C)
    (h : B → C → D) {d : D}
    → (a >>= λ x. f x >>= λ y. g x >>= λ z. ok (h y z)) ≡ ok d
    → (x : A) × (y : B) × (z : C) × ((a ≡ ok x) × (f x ≡ ok y) × (g x ≡ ok z) × (h y z ≡ d))
three-eq-ok a f g h e =
    let (x, ea, rest) = >>=-eq-ok a (λ x. f x >>= λ y. g x >>= λ z. ok (h y z)) e in
    let (y, ef, last) = >>=-eq-ok (f x) (λ y. g x >>= λ z. ok (h y z)) rest in
    let (z, eg, made) = >>=-eq-ok (g x) (λ z. ok (h y z)) last in (x, y, z, (ea, ef, eg, cc))
