-- ===== src/Base/Decimal.antt =====
-- The numbers that fmt prints with %d, and their reading.
use Prim.Native.Nat.{ℕ, zero, suc, ◌+◌, ◌-◌, ◌*◌, ◌/◌, ◌%◌, ◌<◌}
use mathlib.Core.Path.{◌≡◌, refl, sym, ap, subst, ◌∙◌}
use mathlib.Core.Bool.{Bool, true, false, ◌&&◌}
use mathlib.Core.Logic.{inl, inr}
use mathlib.Core.List.{List, [], ◌∷◌}
use mathlib.Core.Option.{Option, none, some}
use native.Mathlib.Omega.{arith}
use grimlocker_public.Base.Tests.{ltb, leb, if◌then◌else◌, Bool-cases, ltb→le}
use grimlocker_public.Base.Lists.{All}
use grimlocker_public.Base.Int.{ℤ, pos, negsuc}

-- The digits of a number in front of a text. Each round leaves a tenth of the number, so that more
-- rounds than the number are enough.
unfoldable pub digits : ℕ → ℕ → List ℕ → List ℕ
digits zero n after = after
digits (suc fuel) n after = elim (ltb n 10) [
  | true ↦ (48 + n % 10) ∷ after
  | false ↦ digits fuel (n / 10) ((48 + n % 10) ∷ after)
]

abbrev pub decimal : ℕ → List ℕ
decimal n = digits (suc n) n []

abbrev pub decimal_ℤ : ℤ → List ℕ
decimal_ℤ (pos n) = decimal n
decimal_ℤ (negsuc n) = 45 ∷ decimal (suc n)

abbrev pub is_digit : ℕ → Bool
is_digit c = leb 48 c && leb c 57

-- The number that the digits of a text append to one.
unfoldable pub number : ℕ → List ℕ → Option ℕ
number n [] = some n
number n (c ∷ cs) = let rest = number (n * 10 + (c - 48)) cs in if is_digit c then rest else none

abbrev pub read_decimal : List ℕ → Option ℕ
read_decimal [] = none
read_decimal (c ∷ cs) = number 0 (c ∷ cs)

abbrev negative : Option ℕ → Option ℤ
negative none = none
negative (some zero) = some (pos zero)
negative (some (suc n)) = some (negsuc n)

abbrev non_negative : Option ℕ → Option ℤ
non_negative none = none
non_negative (some n) = some (pos n)

-- A digit is no minus sign.
abbrev pub read_decimal_ℤ : List ℕ → Option ℤ
read_decimal_ℤ [] = none
read_decimal_ℤ (c ∷ cs) =
    if is_digit c
    then non_negative (read_decimal (c ∷ cs))
    else if leb 45 c && leb c 45
    then negative (read_decimal cs)
    else none

abbrev pub IsDigit : ℕ → Type 0
IsDigit c = (47 < c) × (c < 58)

digits-last :
    (fuel n : ℕ) (after : List ℕ)
    → ltb n 10 ≡ true
    → digits (suc fuel) n after ≡ (48 + n % 10) ∷ after
unfolding digits
digits-last fuel n after small = rw (digits, small) refl

digits-more :
    (fuel n : ℕ) (after : List ℕ)
    → ltb n 10 ≡ false
    → digits (suc fuel) n after ≡ digits fuel (n / 10) ((48 + n % 10) ∷ after)
unfolding digits
digits-more fuel n after large = rw (digits, large) refl

number-digit : (n d : ℕ) (cs : List ℕ) → d < 10 → number n ((48 + d) ∷ cs) ≡ number (n * 10 + d) cs
unfolding number
number-digit n d cs h = let e : 48 + d - 48 ≡ d = omega arith in rw e (ground (arith, h))

pub number-digits :
    (fuel n : ℕ) (after : List ℕ) → n < fuel → number 0 (digits fuel n after) ≡ number n after
number-digits zero n after h = absurd (omega arith)
number-digits (suc fuel) n after h = elim (Bool-cases (ltb n 10)) [
  | inl small ↦
      let whole : 0 * 10 + n % 10 ≡ n = ground (arith, small) in
      ap (number 0) (digits-last fuel n after small)
      ∙ number-digit 0 (n % 10) after (omega arith)
      ∙ ap (λ k. number k after) whole
  | inr large ↦
      let whole : n / 10 * 10 + n % 10 ≡ n = omega arith in
      let less = ltb→le n 10 large in
      ap (number 0) (digits-more fuel n after large)
      ∙ number-digits fuel (n / 10) ((48 + n % 10) ∷ after) (omega arith)
      ∙ number-digit (n / 10) (n % 10) after (omega arith)
      ∙ ap (λ k. number k after) whole
]

pub digits-IsDigit :
    (fuel n : ℕ) (after : List ℕ) → All IsDigit after → All IsDigit (digits fuel n after)
unfolding digits
digits-IsDigit zero n after h = h
digits-IsDigit (suc fuel) n after h = elim (Bool-cases (ltb n 10)) [
  | inl small ↦
      subst (All IsDigit) (sym (digits-last fuel n after small)) ((omega arith, omega arith), h)
  | inr large ↦
      subst (All IsDigit) (sym (digits-more fuel n after large))
        (digits-IsDigit fuel (n / 10) _ ((omega arith, omega arith), h))
]

-- A printed number has a first digit.
pub digits-first :
    (fuel n : ℕ) (after : List ℕ) → (c : ℕ) × (cs : List ℕ) × (digits (suc fuel) n after ≡ c ∷ cs)
unfolding digits
digits-first zero n after = elim (Bool-cases (ltb n 10)) [
  | inl small ↦ (48 + n % 10, after, digits-last 0 n after small)
  | inr large ↦ (48 + n % 10, after, digits-more 0 n after large)
]
digits-first (suc fuel) n after = elim (Bool-cases (ltb n 10)) [
  | inl small ↦ (48 + n % 10, after, digits-last (suc fuel) n after small)
  | inr large ↦
      let (c, cs, e) = digits-first fuel (n / 10) ((48 + n % 10) ∷ after) in
      (c, cs, digits-more (suc fuel) n after large ∙ e)
]

pub read_decimal-decimal : (n : ℕ) → read_decimal (decimal n) ≡ some n
unfolding number
read_decimal-decimal n =
    let (c, cs, e) = digits-first n n [] in
    let reads = number-digits (suc n) n [] (omega arith) in
    ap read_decimal e ∙ sym (ap (number 0) e) ∙ reads

read_digits : (cs : List ℕ) → All IsDigit cs → read_decimal_ℤ cs ≡ non_negative (read_decimal cs)
read_digits [] h = refl
read_digits (c ∷ cs) h =
    let digit : is_digit c ≡ true = ground (arith, h.0.0, h.0.1) in rw digit refl

pub read_decimal_ℤ-decimal_ℤ : (i : ℤ) → read_decimal_ℤ (decimal_ℤ i) ≡ some i
read_decimal_ℤ-decimal_ℤ (pos n) =
    read_digits (decimal n) (digits-IsDigit (suc n) n [] tt)
    ∙ ap non_negative (read_decimal-decimal n)
read_decimal_ℤ-decimal_ℤ (negsuc n) = ap negative (read_decimal-decimal (suc n))

-- A printed integer has digits and a minus sign, and is not empty.
abbrev pub IsSigned : ℕ → Type 0
IsSigned c = (c < 58) × (44 < c)

digits-IsSigned : (cs : List ℕ) → All IsDigit cs → All IsSigned cs
digits-IsSigned [] h = tt
digits-IsSigned (c ∷ cs) h = ((h.0.1, omega (arith, h.0.0)), digits-IsSigned cs h.1)

pub decimal_ℤ-IsSigned : (i : ℤ) → All IsSigned (decimal_ℤ i)
decimal_ℤ-IsSigned (pos n) = digits-IsSigned _ (digits-IsDigit (suc n) n [] tt)
decimal_ℤ-IsSigned (negsuc n) =
    ((omega arith, omega arith), digits-IsSigned _ (digits-IsDigit (suc (suc n)) (suc n) [] tt))
