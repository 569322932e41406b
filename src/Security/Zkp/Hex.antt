-- ===== src/Security/Zkp/Hex.antt =====
-- EncodeToString and DecodeString of Go's encoding/hex, which engine/security/zkp.go uses.
use grimlocker_public.Base.{
  ◌≡◌, refl, ap, ℕ, ◌+◌, ◌-◌, ◌*◌, ◌/◌, ◌%◌, ◌<◌, ◌&&◌, List, [], ◌∷◌, Option, none, some, leb, ltb,
  if◌then◌else◌, arith, length, ◌++◌, get_or, drop, ap₂,
}
use grimlocker_public.Wire.{IsByte, IsBytes}

abbrev pub hex_digit : ℕ → ℕ
hex_digit n = if ltb n 10 then n + 48 else n + 87

unfoldable pub encode_to_string : List ℕ → List ℕ
encode_to_string [] = []
encode_to_string (b ∷ bs) = hex_digit (b / 16) ∷ hex_digit (b % 16) ∷ encode_to_string bs

abbrev from_hex_digit : ℕ → Option ℕ
from_hex_digit c =
    if leb 48 c && leb c 57
    then some (c - 48)
    else if leb 97 c && leb c 102
    then some (c - 87)
    else if leb 65 c && leb c 70
    then some (c - 55)
    else none

abbrev join_digits : Option ℕ → Option ℕ → Option (List ℕ) → Option (List ℕ)
join_digits (some a) (some b) (some bs) = some ((a * 16 + b) ∷ bs)
join_digits _ _ _ = none

unfoldable pub decode_string : List ℕ → Option (List ℕ)
decode_string [] = some []
decode_string (a ∷ []) = none
decode_string (a ∷ b ∷ cs) = join_digits (from_hex_digit a) (from_hex_digit b) (decode_string cs)

from_hex_digit-hex_digit : (n : ℕ) → n < 16 → from_hex_digit (hex_digit n) ≡ some n
from_hex_digit-hex_digit n h = ground arith

pub decode-encode : (bs : List ℕ) → IsBytes bs → decode_string (encode_to_string bs) ≡ some bs
unfolding decode_string encode_to_string
decode-encode [] h = refl
decode-encode (b ∷ bs) h =
    let hi = from_hex_digit-hex_digit (b / 16) (omega (arith, h.0)) in
    let lo = from_hex_digit-hex_digit (b % 16) (omega arith) in
    rw (hi, lo, decode-encode bs h.1) (ap (λ x. some (x ∷ bs)) (omega arith))

hex_digit-injective : (a b : ℕ) → a < 16 → b < 16 → hex_digit a ≡ hex_digit b → a ≡ b
hex_digit-injective a b h k e = ground (arith, h, k, e)

digits-injective :
    (a b : ℕ)
    → IsByte a
    → IsByte b
    → hex_digit (a / 16) ≡ hex_digit (b / 16)
    → hex_digit (a % 16) ≡ hex_digit (b % 16)
    → a ≡ b
digits-injective a b h k e d =
    let hi = hex_digit-injective (a / 16) (b / 16) (omega arith) (omega arith) e in
    let lo = hex_digit-injective (a % 16) (b % 16) (omega arith) (omega arith) d in omega arith

-- Of two texts that start with the digits of as many bytes, the bytes and the rests are the same.
pub encode_prefix :
    (a b r s : List ℕ)
    → length a ≡ length b
    → IsBytes a
    → IsBytes b
    → encode_to_string a ++ r ≡ encode_to_string b ++ s
    → (a ≡ b) × (r ≡ s)
unfolding encode_to_string
encode_prefix [] [] r s l h k e = (refl, e)
encode_prefix [] (y ∷ b) r s l h k e = absurd (omega arith)
encode_prefix (x ∷ a) [] r s l h k e = absurd (omega arith)
encode_prefix (x ∷ a) (y ∷ b) r s l h k e =
    let hi : hex_digit (x / 16) ≡ hex_digit (y / 16) = ap (λ t. get_or t 0 0) e in
    let lo : hex_digit (x % 16) ≡ hex_digit (y % 16) = ap (λ t. get_or t 1 0) e in
    let (same, rest) = encode_prefix a b r s (omega arith) h.1 k.1 (ap (drop 2) e) in
    (ap₂ (λ z zs. z ∷ zs) (digits-injective x y h.0 k.0 hi lo) same, rest)

pub length-encode_to_string : (bs : List ℕ) → length (encode_to_string bs) ≡ 2 * length bs
unfolding encode_to_string
length-encode_to_string [] = refl
length-encode_to_string (b ∷ bs) = omega (arith, length-encode_to_string bs)
