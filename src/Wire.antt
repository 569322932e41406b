-- ===== src/Wire.antt =====
-- Big-endian integers and byte buffers, as engine/gql/frame.go and engine/gql/types.go use them
-- (Go's encoding/binary, make, copy and indexed writes). A byte slice is a list of numbers below
-- 256; a write outside the slice panics, which is `none`.
pub mod Buffers
use grimlocker_public.Base.{
  ℕ, ◌+◌, ◌-◌, ◌*◌, ◌/◌, ◌%◌, ◌^◌, ◌<◌, ◌≡◌, List, [], ◌∷◌, ◌++◌, Option, none, some, arith, length,
  get_or, take, drop, All, leb, if◌then◌else◌,
}

abbrev pub IsByte : ℕ → Type 0
IsByte b = b < 256

abbrev pub IsBytes : List ℕ → Type 0
IsBytes = All IsByte

-- `uint16` and `uint32` in network order.
abbrev pub be16 : ℕ → List ℕ
be16 v = (v / 256 % 256) ∷ (v % 256) ∷ []

abbrev pub be32 : ℕ → List ℕ
be32 v = (v / 16777216 % 256) ∷ (v / 65536 % 256) ∷ (v / 256 % 256) ∷ (v % 256) ∷ []

-- `binary.BigEndian.Uint16(b)` and `Uint32(b)`, for slices that are long enough.
abbrev pub uint16 : List ℕ → ℕ
uint16 b = get_or b 0 0 * 256 + get_or b 1 0

abbrev pub uint32 : List ℕ → ℕ
uint32 b = get_or b 0 0 * 16777216 + get_or b 1 0 * 65536 + get_or b 2 0 * 256 + get_or b 3 0

-- The slice with `bs` written from `off` on.
abbrev pub write_at : List ℕ → ℕ → List ℕ → List ℕ
write_at buf off bs = take off buf ++ (bs ++ drop (off + length bs) buf)

-- `copy(buf[off:], bytes)` for bytes that have to fit, as the Put functions and `buf[off] = b` do.
unfoldable pub put : List ℕ → ℕ → List ℕ → Option (List ℕ)
put buf off bs = if leb (off + length bs) (length buf) then some (write_at buf off bs) else none

-- `copy(buf[off:], s)`, which copies what there is room for.
unfoldable pub copy_at : List ℕ → ℕ → List ℕ → Option (List ℕ)
copy_at buf off s =
    if leb off (length buf) then some (write_at buf off (take (length buf - off) s)) else none

-- Reading back what was written.
pub uint16-be16 : (n : ℕ) (rest : List ℕ) → n < 65536 → uint16 (be16 n ++ rest) ≡ n
uint16-be16 n rest h = omega arith

pub uint32-be32 : (n : ℕ) (rest : List ℕ) → n < 2 ^ 32 → uint32 (be32 n ++ rest) ≡ n
uint32-be32 n rest h = omega arith

-- Writing back what was read.
pub be16-uint16 : (a b : ℕ) → IsByte a → IsByte b → be16 (a * 256 + b) ≡ a ∷ b ∷ []
be16-uint16 a b ha hb = ground arith

pub be32-uint32 :
    (a b c d : ℕ)
    → IsByte a
    → IsByte b
    → IsByte c
    → IsByte d
    → be32 (a * 16777216 + b * 65536 + c * 256 + d) ≡ a ∷ b ∷ c ∷ d ∷ []
be32-uint32 a b c d ha hb hc hd = ground arith
