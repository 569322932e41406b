-- ===== src/Security/Audit/Ring.antt =====
-- The ring of events as the list of its contents, oldest first.
use native.Mathlib.Nat.{mod-add-mod, mod-eq_of_lt, mod-eq-sub-mod, mod-lt}
use grimlocker_public.Base.{
  ℕ, zero, suc, ◌+◌, ◌-◌, ◌%◌, ◌≤◌, ◌<◌, ◌≡◌, ◌≢◌, refl, sym, ap, ap₂, ◌∙◌, List, [], ◌∷◌, ◌++◌,
  arith, ltb, length, length-set, length-replicate, get_or, set, drop, inl, inr, Bool-cases, ltb→lt,
  ltb→le,
}
use grimlocker_public.Base.Int.{ℤ, pos, negsuc}
use grimlocker_public.Security.Audit.{
  SecurityEvent, AuditLog, zero_event, create, write_slot, slots,
}

pub record IsValid (a : AuditLog) : Type 0 where
  pub ring_full : length a.ring ≡ a.cap
  pub some_room : 0 < a.cap
  pub head_in : a.head < a.cap
  pub size_in : a.size ≤ a.cap

-- The events that the log holds, oldest first.
abbrev pub contents : AuditLog → List SecurityEvent
contents a = slots a.ring a.cap a.head 0 a.size

pub create-IsValid : (capacity : ℤ) → IsValid (create capacity)
unfolding create
create-IsValid (pos zero) = record {
  ring_full = length-replicate 1024 zero_event;
  some_room = omega arith;
  head_in = omega arith;
  size_in = omega arith;
}
create-IsValid (pos (suc n)) = record {
  ring_full = length-replicate (suc n) zero_event;
  some_room = omega arith;
  head_in = omega arith;
  size_in = omega arith;
}
create-IsValid (negsuc n) = record {
  ring_full = length-replicate 1024 zero_event;
  some_room = omega arith;
  head_in = omega arith;
  size_in = omega arith;
}

pub write_slot-IsValid : (e : SecurityEvent) (a : AuditLog) → IsValid a → IsValid (write_slot e a)
unfolding write_slot
write_slot-IsValid e a v =
    let same = length-set a.ring ((a.head + a.size) % a.cap) e in
    let low = mod-lt (a.head + 1) v.some_room in ground (arith, same, low)

set-other :
    (xs : List SecurityEvent) (i j : ℕ) (v d : SecurityEvent)
    → i ≢ j
    → get_or (set xs i v) j d ≡ get_or xs j d
set-other [] i j v d h = refl
set-other (x ∷ xs) zero zero v d h = absurd (h refl)
set-other (x ∷ xs) zero (suc j) v d h = refl
set-other (x ∷ xs) (suc i) zero v d h = refl
set-other (x ∷ xs) (suc i) (suc j) v d h = set-other xs i j v d (λ e. h (ap suc e))

set-same :
    (xs : List SecurityEvent) (i : ℕ) (v d : SecurityEvent)
    → i < length xs
    → get_or (set xs i v) i d ≡ v
set-same [] i v d h = absurd (omega arith)
set-same (x ∷ xs) zero v d h = refl
set-same (x ∷ xs) (suc i) v d h = set-same xs i v d (omega arith)

-- Two indices that are less than a round apart are different in the ring.
mod-apart : (cap a b : ℕ) → a < b → b < a + cap → a % cap ≢ b % cap
mod-apart cap a b h k e =
    let r : ℕ = a % cap in
    let d : ℕ = b - a in
    let low = mod-lt a {m = cap} (omega arith) in
    let split : b % cap ≡ (r + d) % cap =
      let sum : b ≡ a + d = omega arith in ap (λ x. x % cap) sum ∙ sym (mod-add-mod a cap d) in
    elim (Bool-cases (ltb (r + d) cap)) [
      | inl small ↦ omega (arith, e, split, mod-eq_of_lt (ltb→lt _ _ small))
      | inr big ↦ omega (
        arith,
        e,
        split,
        low,
        ltb→le _ _ big,
        mod-eq-sub-mod {n = r + d} {m = cap} (ltb→le _ _ big),
        mod-eq_of_lt {n = r + d - cap} {m = cap} (omega arith),
      )
    ]

-- Writing a slot outside a window leaves the window.
slots-set :
    (ring : List SecurityEvent) (cap start i n k : ℕ) (e : SecurityEvent)
    → i + n ≤ k
    → k < i + cap
    → slots (set ring ((start + k) % cap) e) cap start i n ≡ slots ring cap start i n
unfolding slots
slots-set ring cap start i zero k e h1 h2 = refl
slots-set ring cap start i (suc n) k e h1 h2 =
    let apart = mod-apart cap (start + i) (start + k) (omega arith) (omega arith) in
    ap₂ ◌∷◌
      (set-other ring ((start + k) % cap) ((start + i) % cap) e zero_event (λ q. apart (sym q)))
      (slots-set ring cap start (i + 1) n k e (omega arith) (omega arith))

slots-snoc :
    (ring : List SecurityEvent) (cap start i n : ℕ)
    → slots ring cap start i (suc n)
      ≡ slots ring cap start i n ++ get_or ring ((start + (i + n)) % cap) zero_event ∷ []
unfolding slots
slots-snoc ring cap start i zero =
    let e : i ≡ i + 0 = omega arith in ap (λ j. get_or ring ((start + j) % cap) zero_event ∷ []) e
slots-snoc ring cap start i (suc n) =
    let e : i + 1 + n ≡ i + suc n = omega arith in
    ap (λ r. get_or ring ((start + i) % cap) zero_event ∷ r)
      (slots-snoc ring cap start (i + 1) n
        ∙ ap
            (λ j. slots ring cap start (i + 1) n ++ get_or ring ((start + j) % cap) zero_event ∷ [])
            e)

-- A window may start `k` slots later.
pub slots-start :
    (ring : List SecurityEvent) (cap start k i n : ℕ)
    → slots ring cap ((start + k) % cap) i n ≡ slots ring cap start (k + i) n
unfolding slots
slots-start ring cap start k i zero = refl
slots-start ring cap start k i (suc n) =
    let e : start + k + i ≡ start + (k + i) = omega arith in
    let e' : k + (i + 1) ≡ k + i + 1 = omega arith in
    ap₂ ◌∷◌
      (ap (λ j. get_or ring j zero_event) (mod-add-mod (start + k) cap i ∙ ap (λ j. j % cap) e))
      (slots-start ring cap start k (i + 1) n ∙ ap (λ j. slots ring cap start j n) e')

pub length-slots :
    (ring : List SecurityEvent) (cap start i n : ℕ) → length (slots ring cap start i n) ≡ n
unfolding slots
length-slots ring cap start i zero = refl
length-slots ring cap start i (suc n) = ap suc (length-slots ring cap start (i + 1) n)

pub drop-slots :
    (ring : List SecurityEvent) (cap start i k n : ℕ)
    → k ≤ n
    → drop k (slots ring cap start i n) ≡ slots ring cap start (i + k) (n - k)
unfolding slots
drop-slots ring cap start i zero n h =
    let e : i ≡ i + 0 = omega arith in
    let e' : n ≡ n - 0 = omega arith in ap₂ (λ j m. slots ring cap start j m) e e'
drop-slots ring cap start i (suc k) zero h = absurd (omega arith)
drop-slots ring cap start i (suc k) (suc n) h =
    let e : i + 1 + k ≡ i + suc k = omega arith in
    let e' : n - k ≡ suc n - suc k = omega arith in
    drop-slots ring cap start (i + 1) k n (omega arith) ∙ ap₂ (λ j m. slots ring cap start j m) e e'

-- Writing into a log that is not full adds the event at the end.
pub write_free :
    (e : SecurityEvent) (a : AuditLog)
    → IsValid a
    → a.size < a.cap
    → slots (set a.ring ((a.head + a.size) % a.cap) e) a.cap a.head 0 (suc a.size)
      ≡ contents a ++ e ∷ []
write_free e a v h =
    let at : ℕ = (a.head + a.size) % a.cap in
    let here =
      set-same a.ring at e zero_event
        (omega (arith, v.ring_full, mod-lt (a.head + a.size) v.some_room)) in
    let e0 : 0 + a.size ≡ a.size = omega arith in
    slots-snoc (set a.ring at e) a.cap a.head 0 a.size
    ∙ ap₂ (λ xs x. xs ++ x ∷ [])
        (slots-set a.ring a.cap a.head 0 a.size a.size e (omega arith) (omega arith))
        (ap (λ j. get_or (set a.ring at e) ((a.head + j) % a.cap) zero_event) e0 ∙ here)

-- Writing into a full log replaces the oldest event.
pub write_full :
    (e : SecurityEvent) (a : AuditLog) (m : ℕ)
    → IsValid a
    → a.size ≡ suc m
    → a.cap ≡ suc m
    → slots (set a.ring ((a.head + a.size) % a.cap) e) a.cap ((a.head + 1) % a.cap) 0 (suc m)
      ≡ slots a.ring a.cap a.head 1 m ++ e ∷ []
write_full e a m v s c =
    let at : ℕ = (a.head + a.size) % a.cap in
    let here =
      set-same a.ring at e zero_event
        (omega (arith, v.ring_full, mod-lt (a.head + a.size) v.some_room)) in
    let e0 : 1 + m ≡ a.size = omega arith in
    slots-start (set a.ring at e) a.cap a.head 1 0 (suc m)
    ∙ slots-snoc (set a.ring at e) a.cap a.head 1 m
    ∙ ap₂ (λ xs x. xs ++ x ∷ [])
        (slots-set a.ring a.cap a.head 1 m a.size e (omega arith) (omega arith))
        (ap (λ j. get_or (set a.ring at e) ((a.head + j) % a.cap) zero_event) e0 ∙ here)
