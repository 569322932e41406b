-- ===== src/Crypto/Tests.antt =====
-- The overwriting of a small file and the reading of a key from one, and the theorems at them.
use grimlocker_public.Base.{
  ◌≡◌, ◌≢◌, refl, ℕ, zero, suc, List, [], ◌∷◌, ◌++◌, Option, some, length, replicate, ap,
}
use grimlocker_public.Base.Int.{pos}
use grimlocker_public.Crypto.Shredder.{shredded, out_of_fuel, shred, shred_from, shred_pass}
use grimlocker_public.Crypto.Shredder.Ending.{shred_ends}
use grimlocker_public.Crypto.Shredder.Forgetting.{File, file_devices, Gives, shred_forgets}
use grimlocker_public.Crypto.Coordinate.{derive_coordinate_offsets, take_offsets}

-- A random source that counts its readings.
abbrev counted : ℕ → ℕ → Option (List ℕ) × ℕ
counted n r = (some (replicate n r), suc r)

length-replicate : (n b : ℕ) → length (replicate n b) ≡ n
length-replicate zero b = refl
length-replicate (suc n) b = ap suc (length-replicate n b)

counted-Gives : Gives counted
counted-Gives n r = (replicate n r, refl, length-replicate n r)

abbrev secrets : File
secrets = record { before = []; after = 11 ∷ 12 ∷ 13 ∷ [] }

abbrev others : File
others = record { before = 1 ∷ []; after = 2 ∷ 3 ∷ [] }

-- The seventh reading is left.
secrets_shredded : (shred (file_devices counted) 3 secrets 0).1.before ≡ 6 ∷ 6 ∷ 6 ∷ []
unfolding shred shred_from shred_pass
secrets_shredded = refl

shred_ends_example : (shred (file_devices counted) 3 secrets 0).0 ≢ out_of_fuel
shred_ends_example = shred_ends (file_devices counted) 3 secrets 0

shred_forgets_example :
    let q = shred (file_devices counted) 3 secrets 0 in
    (q.0 ≡ shredded)
    × (length (q.1.before ++ q.1.after) ≡ 3)
    × (shred (file_devices counted) 3 others 0 ≡ q)
shred_forgets_example = shred_forgets counted 3 secrets others 0 counted-Gives refl refl

-- An expansion of ones.
abbrev ones : List ℕ → Option (List ℕ)
ones hash = some (replicate 128 1)

abbrev entropy : List ℕ
entropy = 7 ∷ 8 ∷ 9 ∷ []

-- 0x01010101 is 1 modulo 3.
offsets-ones : derive_coordinate_offsets ones [] (pos 3) ≡ some (replicate 32 (pos 1))
unfolding derive_coordinate_offsets take_offsets
offsets-ones = refl
