-- ===== src/Security/ConstantTime.antt =====
-- engine/security/constant_time.go, whose loop looks at every byte.
use Prim.Native.Nat.{bit_or, bit_xor}
use grimlocker_public.Base.{
  ◌≡◌, refl, sym, ap, ℕ, Bool, false, not, ◌&&◌, List, [], ◌∷◌, ◌==◌, length, bytes_eq,
  if◌then◌else◌, arith, ==_iff, suc, ◌<◌, Bool-cases, inl, inr,
}
use grimlocker_public.Base.Bits.{xor_byte, xor_same, xor_zero, or_zero, or_byte}
use grimlocker_public.Wire.{IsBytes}

-- `v |= a[i] ^ b[i]`, over lists of the same length.
abbrev pub collect : List ℕ → List ℕ → ℕ → ℕ
collect [] ys v = v
collect (a ∷ xs) [] v = v
collect (a ∷ xs) (b ∷ ys) v = collect xs ys (bit_or v (bit_xor a b))

unfoldable pub constant_time_equal : List ℕ → List ℕ → Bool
constant_time_equal a b = if not (length a == length b) then false else collect a b 0 == 0

collect_lem :
    (xs ys : List ℕ) (v : ℕ)
    → length xs ≡ length ys
    → IsBytes xs
    → IsBytes ys
    → v < 256
    → (collect xs ys v == 0) ≡ ((v == 0) && bytes_eq xs ys)
collect_lem [] [] v h k l m = ground arith
collect_lem [] (b ∷ ys) v h k l m = absurd (ground arith)
collect_lem (a ∷ xs) [] v h k l m = absurd (ground arith)
collect_lem (a ∷ xs) (b ∷ ys) v h k l m =
    let x = bit_xor a b in
    let x_byte = xor_byte a b k.0 l.0 in
    ground (
      arith,
      collect_lem xs ys (bit_or v x) (ground arith) k.1 l.1 (or_byte v x m x_byte),
      or_zero v x m x_byte,
      xor_zero a b k.0 l.0,
      xor_same a k.0,
    )

lengths_differ : (xs ys : List ℕ) → ¬ (length xs ≡ length ys) → bytes_eq xs ys ≡ false
lengths_differ [] [] h = absurd (h refl)
lengths_differ [] (b ∷ ys) h = refl
lengths_differ (a ∷ xs) [] h = refl
lengths_differ (a ∷ xs) (b ∷ ys) h = ground (arith, lengths_differ xs ys (λ e. h (ap suc e)))

-- On bytes, the loop that keeps no early exit decides equality.
pub constant_time_equal_lem :
    (a b : List ℕ) → IsBytes a → IsBytes b → constant_time_equal a b ≡ bytes_eq a b
unfolding constant_time_equal
constant_time_equal_lem a b h k = elim (Bool-cases (length a == length b)) [
  | inl same ↦
      rw (same, constant_time_equal)
        (collect_lem a b 0 ((==_iff (length a) (length b)).0 same) h k (ground arith))
  | inr other ↦ rw (other, constant_time_equal) (sym (lengths_differ a b (ground arith)))
]
