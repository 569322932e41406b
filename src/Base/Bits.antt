-- ===== src/Base/Bits.antt =====
-- Bitwise operations on bytes, whose laws are checked at every byte.
use Prim.Native.Nat.{ℕ, zero, suc, ◌<◌, ◌+◌, ◌%◌, bit_and, bit_or, bit_xor}
use mathlib.Core.Path.{◌≡◌, refl, sym, ap, ◌∙◌}
use mathlib.Core.Bool.{Bool, true, ◌&&◌, false}
use native.Mathlib.Omega.{arith}
use grimlocker_public.Base.Tests.{if◌then◌else◌, ◌==◌, ==_iff, ltb}

-- A test at every number below a bound.
abbrev pub holds_below : (ℕ → Bool) → ℕ → Bool
holds_below test zero = true
holds_below test (suc bound) =
    let lower = holds_below test bound in if test bound then lower else false

pub holds_at :
    (test : ℕ → Bool) (bound i : ℕ) → i < bound → holds_below test bound ≡ true → test i ≡ true
holds_at test zero i small table = absurd (ground arith)
holds_at test (suc bound) i small table = ground (arith, holds_at test bound i)

abbrev same_test : Bool → Bool → Bool
same_test true b = b
same_test false true = false
same_test false false = true

iff_same : (a b : Bool) → same_test a b ≡ true → a ≡ b
iff_same true true h = refl
iff_same true false h = sym h
iff_same false true h = h
iff_same false false h = refl

for_bytes :
    (p : ℕ → ℕ → Bool) (a b : ℕ)
    → holds_below (λ x. holds_below (p x) 256) 256 ≡ true
    → a < 256
    → b < 256
    → p a b ≡ true
for_bytes p a b table h k =
    holds_at (p a) 256 b k (holds_at (λ x. holds_below (p x) 256) 256 a h table)

pub xor_cancel : (a b : ℕ) → a < 256 → b < 256 → bit_xor (bit_xor a b) b ≡ a
xor_cancel a b h k = (==_iff _ a).0 (for_bytes (λ x y. bit_xor (bit_xor x y) y == x) a b refl h k)

pub xor_byte : (a b : ℕ) → a < 256 → b < 256 → bit_xor a b < 256
xor_byte a b h k = let e = for_bytes (λ x y. ltb (bit_xor x y) 256) a b refl h k in ground arith

pub xor_same : (a : ℕ) → a < 256 → bit_xor a a ≡ 0
xor_same a h = (==_iff _ 0).0 (holds_at (λ x. bit_xor x x == 0) 256 a h refl)

pub xor_from_zero : (a : ℕ) → a < 256 → bit_xor 0 a ≡ a
xor_from_zero a h = (==_iff _ a).0 (holds_at (λ x. bit_xor 0 x == x) 256 a h refl)

pub xor_zero : (a b : ℕ) → a < 256 → b < 256 → bit_xor a b ≡ 0 → a ≡ b
xor_zero a b h k e = sym (xor_cancel a b h k) ∙ ap (λ x. bit_xor x b) e ∙ xor_from_zero b k

pub or_zero : (a b : ℕ) → a < 256 → b < 256 → (bit_or a b == 0) ≡ ((a == 0) && (b == 0))
or_zero a b h k =
    iff_same (bit_or a b == 0) ((a == 0) && (b == 0))
      (for_bytes (λ x y. same_test (bit_or x y == 0) ((x == 0) && (y == 0))) a b refl h k)

pub or_byte : (a b : ℕ) → a < 256 → b < 256 → bit_or a b < 256
or_byte a b h k = let e = for_bytes (λ x y. ltb (bit_or x y) 256) a b refl h k in ground arith

-- A byte with its high half set to 0100, and with its two highest bits set to 10.
pub version_byte : (b : ℕ) → b < 256 → bit_or (bit_and b 15) 64 ≡ 64 + b % 16
version_byte b h =
    (==_iff _ _).0 (holds_at (λ x. bit_or (bit_and x 15) 64 == 64 + x % 16) 256 b h refl)

pub variant_byte : (b : ℕ) → b < 256 → bit_or (bit_and b 63) 128 ≡ 128 + b % 64
variant_byte b h =
    (==_iff _ _).0 (holds_at (λ x. bit_or (bit_and x 63) 128 == 128 + x % 64) 256 b h refl)
