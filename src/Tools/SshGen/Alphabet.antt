-- ===== src/Tools/SshGen/Alphabet.antt =====
-- The characters of the passphrases of engine/tools/ssh_gen.go.
use grimlocker_public.Base.{
  ◌≡◌, refl, ap, ◌∙◌, ℕ, zero, suc, ◌%◌, ◌<◌, Bool, List, [], ◌∷◌, some, length, get_or, map, All,
  ltb, ◌==◌, ==_iff, if◌then◌else◌, arith,
}
use grimlocker_public.Base.Bits.{holds_at}
use grimlocker_public.Base.Int.{pos}
use grimlocker_public.Base.Outcome.{Outcome, ok}
use grimlocker_public.Tools.SshGen.{chars, char_of, generate_secure_passphrase}

length-chars : length chars ≡ 76
length-chars = refl

-- One of the characters of the alphabet.
abbrev pub IsChosen : ℕ → Type 0
IsChosen c = (i : ℕ) × (i < 76) × (get_or chars i 0 ≡ c)

length-map : (f : ℕ → ℕ) (xs : List ℕ) → length (map f xs) ≡ length xs
length-map f [] = refl
length-map f (x ∷ xs) = ap suc (length-map f xs)

map-IsChosen : (bs : List ℕ) → All IsChosen (map char_of bs)
map-IsChosen [] = tt
map-IsChosen (b ∷ bs) = ((b % 76, omega arith, refl), map-IsChosen bs)

-- When the random source gives as many bytes as it is asked for, a passphrase of a length is made
-- of as many characters, all of the alphabet.
pub generate_secure_passphrase_lem :
    (read : ℕ → Outcome (List ℕ) (List ℕ)) (n : ℕ) (random : List ℕ)
    → read n ≡ ok random
    → length random ≡ n
    → (s : List ℕ) × (generate_secure_passphrase read (pos n) ≡ some (ok s))
      × (length s ≡ n)
      × All IsChosen s
unfolding generate_secure_passphrase
generate_secure_passphrase_lem read n random e l =
    (map char_of random, rw e refl, length-map char_of random ∙ l, map-IsChosen random)

-- How many of the numbers below a bound pass a test.
abbrev pub count_below : (ℕ → Bool) → ℕ → ℕ
count_below test zero = 0
count_below test (suc bound) =
    let lower = count_below test bound in if test bound then suc lower else lower

-- The number of bytes that give the i-th character.
abbrev pub ways : ℕ → ℕ
ways i = count_below (λ b. char_of b == get_or chars i 0) 256

-- A random byte gives each of the first 28 characters in 4 of its 256 values, and each of the other 48
-- in 3.
pub ways_lem : (i : ℕ) → i < 76 → ways i ≡ (if ltb i 28 then 4 else 3)
ways_lem i h = (==_iff _ _).0 (holds_at (λ k. ways k == (if ltb k 28 then 4 else 3)) 76 i h refl)
