-- ===== src/Gql/Utf8.antt =====
-- `for _, c := range s` over a Go string: the runes of its UTF-8 bytes. A byte that starts no valid
-- sequence gives the rune 0xFFFD and is passed over alone.
pub mod Checks
use grimlocker_public.Base.{
  ℕ, zero, suc, ◌+◌, ◌-◌, ◌*◌, Bool, ◌&&◌, List, [], ◌∷◌, get_or, ltb, leb, ◌==◌, if◌then◌else◌,
}

abbrev within : ℕ → ℕ → ℕ → Bool
within lo hi b = leb lo b && leb b hi

-- The range of the second byte after E0 to EF, and after F0 to F4.
abbrev second_of_three : ℕ → ℕ → Bool
second_of_three a b = within (if a == 0xE0 then 0xA0 else 0x80) (if a == 0xED then 0x9F else 0xBF) b

abbrev second_of_four : ℕ → ℕ → Bool
second_of_four a b = within (if a == 0xF0 then 0x90 else 0x80) (if a == 0xF4 then 0x8F else 0xBF) b

-- The first rune of a string that is not empty, and the number of its bytes.
unfoldable pub decode_rune : ℕ → List ℕ → ℕ × ℕ
decode_rune a rest =
    let b = get_or rest 0 0 in
    let c = get_or rest 1 0 in
    let d = get_or rest 2 0 in
    if ltb a 0x80
    then (a, 1)
    else if within 0xC2 0xDF a && within 0x80 0xBF b
    then ((a - 0xC0) * 64 + (b - 0x80), 2)
    else if within 0xE0 0xEF a && (second_of_three a b && within 0x80 0xBF c)
    then ((a - 0xE0) * 4096 + (b - 0x80) * 64 + (c - 0x80), 3)
    else if within 0xF0 0xF4 a && (second_of_four a b && (within 0x80 0xBF c && within 0x80 0xBF d))
    then ((a - 0xF0) * 262144 + (b - 0x80) * 4096 + (c - 0x80) * 64 + (d - 0x80), 4)
    else (0xFFFD, 1)

-- The runes that start behind the next `k` bytes.
unfoldable pub runes_after : ℕ → List ℕ → List ℕ
runes_after k [] = []
runes_after zero (a ∷ rest) =
    let first = decode_rune a rest in first.0 ∷ runes_after (first.1 - 1) rest
runes_after (suc k) (a ∷ rest) = runes_after k rest

abbrev pub runes : List ℕ → List ℕ
runes = runes_after 0
