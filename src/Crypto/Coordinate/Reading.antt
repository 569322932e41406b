-- ===== src/Crypto/Coordinate/Reading.antt =====
-- The offsets of engine/crypto/coordinate.go lie in the file.
use grimlocker_public.Base.{
  ◌≡◌, refl, ap, ◌∙◌, ℕ, zero, suc, ◌%◌, ◌<◌, true, List, [], ◌∷◌, Option, none, some, length,
  get_or, drop, ltb, map, arith, sym, Option-cases, inl, inr,
}
use grimlocker_public.Base.Bits.{xor_from_zero}
use grimlocker_public.Base.Int.{ℤ, pos, negsuc}
use grimlocker_public.Wire.{IsBytes, uint32}
use grimlocker_public.Crypto.Coordinate.{derive_xor_as_mvk, take_offsets, derive_coordinate_offsets}

-- The offset as an index, which is that of a non-negative one.
abbrev pub index : ℤ → ℕ
index (pos n) = n
index (negsuc _) = 0

byte_at-IsByte : (file : List ℕ) (i : ℕ) → IsBytes file → get_or file i 0 < 256
byte_at-IsByte [] i h = omega arith
byte_at-IsByte (b ∷ bs) zero h = h.0
byte_at-IsByte (b ∷ bs) (suc i) h = byte_at-IsByte bs i h.1

derive-take_offsets :
    (n : ℕ) (buf file : List ℕ) (size : ℕ)
    → IsBytes file
    → length file ≡ suc size
    → derive_xor_as_mvk file (take_offsets n buf (suc size))
      ≡ some (map (λ o. get_or file (index o) 0) (take_offsets n buf (suc size)))
unfolding derive_xor_as_mvk take_offsets
derive-take_offsets zero buf file size b h = refl
derive-take_offsets (suc n) buf file size b h =
    let off = uint32 buf % suc size in
    let ih = derive-take_offsets n (drop 4 buf) file size b h in
    let inside : ltb off (length file) ≡ true = ground (arith, h) in
    rw (inside, ih, xor_from_zero (get_or file off 0) (byte_at-IsByte file off b)) refl

length-take_offsets : (n : ℕ) (buf : List ℕ) (size : ℕ) → length (take_offsets n buf size) ≡ n
unfolding take_offsets
length-take_offsets zero buf size = refl
length-take_offsets (suc n) buf size = ap suc (length-take_offsets n (drop 4 buf) size)

-- When the offsets for the size of a file of bytes are derived, there are 32, the key is read from
-- the file at them without an error, and it has the bytes of the file there.
pub derive_xor_as_mvk-offsets :
    (expand : List ℕ → Option (List ℕ)) (hash file : List ℕ) (offs : List ℤ)
    → IsBytes file
    → derive_coordinate_offsets expand hash (pos (length file)) ≡ some offs
    → (length offs ≡ 32)
      × (derive_xor_as_mvk file offs ≡ some (map (λ o. get_or file (index o) 0) offs))
unfolding derive_coordinate_offsets
derive_xor_as_mvk-offsets expand hash [] offs b e = absurd cc
derive_xor_as_mvk-offsets expand hash (x ∷ xs) offs b e = elim (Option-cases (expand hash)) [
  | inl fails ↦
      let clash : none ≡ some offs = sym (rw (fails, derive_coordinate_offsets) refl) ∙ e in
      absurd cc
  | inr (buf, reads) ↦
      let taken : some (take_offsets 32 buf (length (x ∷ xs))) ≡ some offs =
        sym (rw (reads, derive_coordinate_offsets) refl) ∙ e in
      let same : take_offsets 32 buf (length (x ∷ xs)) ≡ offs = cc in
      rw (← same) (
        length-take_offsets 32 buf (length (x ∷ xs)),
        derive-take_offsets 32 buf (x ∷ xs) (length xs) b refl,
      )
]
