-- ===== src/Bridge/GoFallback/Coordinate.antt =====
-- When GoDeriveCoordinate of engine/bridge/gofallback.go gives a key, and which.
use grimlocker_public.Base.{
  ◌≡◌, refl, ap, ◌∙◌, ℕ, ◌⊎◌, inl, inr, true, false, List, [], ◌∷◌, ◌++◌, length, map, All, arith,
  Bool-cases,
}
use grimlocker_public.Base.Int.{ℤ}
use grimlocker_public.Base.Outcome.{ok, err}
use grimlocker_public.Gql.Opcodes.{codes}
use grimlocker_public.Bridge.GoFallback.{
  Hkdf, Expands, in_data, byte_at, out_of_range, extract, go_derive_coordinate,
}

abbrev pub Inside : List ℕ → ℤ → Type 0
Inside entropy off = in_data entropy off ≡ true

-- The first offset that is not one of the data.
pub record FirstOutside (entropy : List ℕ) (offs : List ℤ) : Type 0 where
  pub before : List ℤ
  pub bad : ℤ
  pub after : List ℤ
  pub parts : offs ≡ before ++ bad ∷ after
  pub inside : All (Inside entropy) before
  pub outside : in_data entropy bad ≡ false

pub extract-Inside :
    (entropy : List ℕ) (offs : List ℤ)
    → All (Inside entropy) offs
    → extract entropy offs ≡ ok (map (byte_at entropy) offs)
unfolding extract
extract-Inside entropy [] h = refl
extract-Inside entropy (off ∷ offs) h = rw (h.0, extract-Inside entropy offs h.1) refl

extract-outside :
    (entropy : List ℕ) (before : List ℤ) (bad : ℤ) (after : List ℤ)
    → All (Inside entropy) before
    → in_data entropy bad ≡ false
    → extract entropy (before ++ bad ∷ after) ≡ err (out_of_range bad)
unfolding extract
extract-outside entropy [] bad after h k = rw k refl
extract-outside entropy (off ∷ before) bad after h k =
    rw (h.0, extract-outside entropy before bad after h.1 k) refl

find_outside :
    (entropy : List ℕ) (offs : List ℤ) → All (Inside entropy) offs ⊎ FirstOutside entropy offs
find_outside entropy [] = inl tt
find_outside entropy (off ∷ offs) = elim (Bool-cases (in_data entropy off)) [
  | inl here ↦ elim (find_outside entropy offs) [
    | inl all ↦ inl (here, all)
    | inr first ↦ inr (record {
      before = off ∷ first.before;
      bad = first.bad;
      after = first.after;
      parts = ap (λ r. off ∷ r) first.parts;
      inside = (here, first.inside);
      outside = first.outside;
    })
  ]
  | inr not_here ↦ inr (record {
    before = [];
    bad = off;
    after = offs;
    parts = refl;
    inside = tt;
    outside = not_here;
  })
]

-- When HKDF gives the bytes that are asked for and every offset is one of the data, the coordinate is
-- a key of 32 bytes, expanded from the hash of the bytes at the offsets.
pub go_derive_coordinate-Inside :
    (sha256 : List ℕ → List ℕ) (hkdf : Hkdf) (entropy : List ℕ) (offs : List ℤ)
    → Expands hkdf
    → All (Inside entropy) offs
    → (key : List ℕ) × (go_derive_coordinate sha256 hkdf entropy offs ≡ ok key)
      × (length key ≡ 32)
      × (hkdf (sha256 (map (byte_at entropy) offs)) [] (codes "grimlocker-coordinate-salt-v1") 32
          ≡ ok key)
unfolding go_derive_coordinate
go_derive_coordinate-Inside sha256 hkdf entropy offs expands h =
    let (key, e, n) =
      expands (sha256 (map (byte_at entropy) offs)) [] (codes "grimlocker-coordinate-salt-v1") 32
        (omega arith) in
    (key, rw (go_derive_coordinate, extract-Inside entropy offs h, e) refl, n, e)

-- When HKDF gives the bytes that are asked for, deriving a coordinate either finds every offset in
-- the data and gives a key of 32 bytes, or it fails with the text that names the first offset that
-- is not in the data.
pub go_derive_coordinate_lem :
    (sha256 : List ℕ → List ℕ) (hkdf : Hkdf) (entropy : List ℕ) (offs : List ℤ)
    → Expands hkdf
    → (All (Inside entropy) offs
        × ((key : List ℕ) × (go_derive_coordinate sha256 hkdf entropy offs ≡ ok key)
            × (length key ≡ 32)))
      ⊎ ((first : FirstOutside entropy offs) × (go_derive_coordinate sha256 hkdf entropy offs
            ≡ err (out_of_range first.bad)))
unfolding go_derive_coordinate
go_derive_coordinate_lem sha256 hkdf entropy offs expands = elim (find_outside entropy offs) [
  | inl all ↦
      let (key, e, n, _) = go_derive_coordinate-Inside sha256 hkdf entropy offs expands all in
      inl (all, (key, e, n))
  | inr first ↦ inr (
    first,
    ap (λ os. go_derive_coordinate sha256 hkdf entropy os) first.parts
        ∙ rw
            (
              go_derive_coordinate,
              extract-outside entropy first.before first.bad first.after first.inside first.outside,
            )
            refl,
  )
]
