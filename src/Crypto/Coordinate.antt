-- ===== src/Crypto/Coordinate.antt =====
-- engine/crypto/coordinate.go. `expand` reads 128 bytes of the HKDF of a hash, `none` for an error. A
-- file of entropy is the list of its bytes.
pub mod Reading
use Prim.Native.Nat.{bit_xor}
use grimlocker_public.Base.{
  ℕ, zero, suc, ◌+◌, ◌*◌, ◌%◌, List, [], ◌∷◌, Option, none, some, length, get_or, drop, ltb,
  if◌then◌else◌,
}
use grimlocker_public.Base.Int.{ℤ, pos, negsuc}
use grimlocker_public.Wire.{uint32}

-- The loop of DeriveXORAsMVK; a byte of the array is 0 before it is combined. With an error the
-- array is not meant to be used.
unfoldable pub derive_xor_as_mvk : List ℕ → List ℤ → Option (List ℕ)
derive_xor_as_mvk file [] = some []
derive_xor_as_mvk file (negsuc _ ∷ offs) = none
derive_xor_as_mvk file (pos off ∷ offs) =
    let rest = derive_xor_as_mvk file offs in
    if ltb off (length file)
    then elim rest [ none ↦ none | some bs ↦ some (bit_xor 0 (get_or file off 0) ∷ bs) ]
    else none

-- The loop of DeriveCoordinateOffsets over so many groups of four bytes.
unfoldable pub take_offsets : ℕ → List ℕ → ℕ → List ℤ
take_offsets zero buf size = []
take_offsets (suc n) buf size = pos (uint32 buf % size) ∷ take_offsets n (drop 4 buf) size

unfoldable pub derive_coordinate_offsets : (List ℕ → Option (List ℕ)) → List ℕ → ℤ → Option (List ℤ)
derive_coordinate_offsets expand hash (negsuc _) = none
derive_coordinate_offsets expand hash (pos zero) = none
derive_coordinate_offsets expand hash (pos (suc size)) = elim (expand hash) [
  | none ↦ none
  | some buf ↦ some (take_offsets 32 buf (suc size))
]
