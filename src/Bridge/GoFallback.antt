-- ===== src/Bridge/GoFallback.antt =====
-- engine/bridge/gofallback.go. `sha256` and `hkdf` are those of Go's libraries: `hkdf secret salt info
-- n` is what reading n bytes gives. An error is its text.
pub mod Coordinate
use grimlocker_public.Base.{
  ℕ, ◌≤◌, ◌≡◌, Bool, false, List, [], ◌∷◌, ◌++◌, length, get_or, ltb, if◌then◌else◌,
}
use grimlocker_public.Base.Int.{ℤ, pos, negsuc}
use grimlocker_public.Base.Decimal.{decimal_ℤ}
use grimlocker_public.Base.Outcome.{Outcome, ok, err, ◌>>=◌, map_err}
use grimlocker_public.Gql.Opcodes.{codes}

abbrev pub Hkdf : Type 0
Hkdf = List ℕ → List ℕ → List ℕ → ℕ → Outcome (List ℕ) (List ℕ)

-- HKDF with SHA-256 gives up to 255 blocks of 32 bytes.
abbrev pub Expands : Hkdf → Type 0
Expands hkdf =
    (secret salt info : List ℕ) (n : ℕ)
    → n ≤ 8160
    → (bs : List ℕ) × (hkdf secret salt info n ≡ ok bs) × (length bs ≡ n)

-- GoSecureZero
unfoldable pub go_secure_zero : List ℕ → List ℕ
go_secure_zero [] = []
go_secure_zero (b ∷ bs) = 0 ∷ go_secure_zero bs

abbrev pub in_data : List ℕ → ℤ → Bool
in_data entropy (pos off) = ltb off (length entropy)
in_data entropy (negsuc _) = false

abbrev pub byte_at : List ℕ → ℤ → ℕ
byte_at entropy (pos off) = get_or entropy off 0
byte_at entropy (negsuc _) = 0

abbrev pub out_of_range : ℤ → List ℕ
out_of_range off = codes "coordinate: offset " ++ (decimal_ℤ off ++ codes " out of range")

-- The loop of GoDeriveCoordinate.
unfoldable pub extract : List ℕ → List ℤ → Outcome (List ℕ) (List ℕ)
extract entropy [] = ok []
extract entropy (off ∷ offs) =
    let rest = extract entropy offs in
    if in_data entropy off
    then rest >>= (λ bs. ok (byte_at entropy off ∷ bs))
    else err (out_of_range off)

unfoldable pub go_derive_coordinate :
    (List ℕ → List ℕ) → Hkdf → List ℕ → List ℤ → Outcome (List ℕ) (List ℕ)
go_derive_coordinate sha256 hkdf entropy offsets = extract entropy offsets >>= λ extracted.
    map_err (λ why. codes "coordinate: hkdf: " ++ why)
      (hkdf (sha256 extracted) [] (codes "grimlocker-coordinate-salt-v1") 32)

unfoldable pub go_derive_workspace_key : Hkdf → List ℕ → List ℕ → Outcome (List ℕ) (List ℕ)
go_derive_workspace_key hkdf master_key workspace_id =
    map_err (λ why. codes "workspace key: hkdf: " ++ why)
      (hkdf master_key [] (codes "grimlocker-workspace-v1:" ++ workspace_id) 32)
