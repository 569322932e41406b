-- ===== src/Gql/Utf8/Checks.antt =====
-- A test of every rune of a string, against the same test of every byte.
use grimlocker_public.Base.{
  ℕ, zero, suc, ◌-◌, ◌≤◌, ◌<◌, ◌≡◌, inl, inr, Bool, true, List, [], ◌∷◌, arith, ltb, Bool-cases,
  All, ltb→lt, ltb→le, ◌↔◌,
}
use grimlocker_public.Gql.Utf8.{decode_rune, runes_after, runes}

-- The next `k` bytes are no ASCII characters.
abbrev pub High : ℕ → List ℕ → Type 0
High zero s = Unit
High (suc k) [] = Unit
High (suc k) (a ∷ s) = (0x80 ≤ a) × High k s

-- An ASCII byte is a rune of its own.
pub decode_rune-ascii : (a : ℕ) (rest : List ℕ) → a < 0x80 → decode_rune a rest ≡ (a, 1)
unfolding decode_rune
decode_rune-ascii a rest h = ground arith

-- Any other byte starts a rune beyond ASCII, whose bytes all are.
pub decode_rune-High :
    (a : ℕ) (rest : List ℕ)
    → 0x80 ≤ a
    → (0x80 ≤ (decode_rune a rest).0) × High ((decode_rune a rest).1 - 1) rest
unfolding decode_rune
decode_rune-High a [] h = ground arith
decode_rune-High a (b ∷ []) h = ground arith
decode_rune-High a (b ∷ c ∷ []) h = ground arith
decode_rune-High a (b ∷ c ∷ d ∷ rest) h = ground arith

abbrev pub Pass : (ℕ → Bool) → ℕ → Type 0
Pass t r = t r ≡ true

-- A test that only ASCII characters pass.
module _ (t : ℕ → Bool) (ascii : (r : ℕ) → t r ≡ true → r < 0x80) where
  runes-Pass : (s : List ℕ) → All (Pass t) (runes_after 0 s) → All (Pass t) s
  unfolding runes_after
  runes-Pass [] h = tt
  runes-Pass (a ∷ s) h = elim (Bool-cases (ltb a 0x80)) [
    | inl low ↦
        let e = decode_rune-ascii a s (ltb→lt a 0x80 low) in
        let h' : All (Pass t) (a ∷ runes_after 0 s) = rw e at h in (h'.0, runes-Pass s h'.1)
    | inr high ↦ absurd (omega (arith, ascii _ h.0, (decode_rune-High a s (ltb→le a 0x80 high)).0))
  ]

  bytes-Pass : (s : List ℕ) → All (Pass t) s → All (Pass t) (runes_after 0 s)
  unfolding runes_after
  bytes-Pass [] h = tt
  bytes-Pass (a ∷ s) h = rw (decode_rune-ascii a s (ascii a h.0)) (h.0, bytes-Pass s h.1)

  -- It passes on every rune exactly if it passes on every byte.
  pub ascii_iff : (s : List ℕ) → All (Pass t) (runes s) ↔ All (Pass t) s
  ascii_iff s = (runes-Pass s, bytes-Pass s)

-- A test that everything beyond ASCII passes.
module _ (t : ℕ → Bool) (beyond : (r : ℕ) → 0x80 ≤ r → t r ≡ true) where
  runes-Pass' : (k : ℕ) (s : List ℕ) → High k s → All (Pass t) (runes_after k s) → All (Pass t) s
  unfolding runes_after
  runes-Pass' k [] g h = tt
  runes-Pass' zero (a ∷ s) g h = elim (Bool-cases (ltb a 0x80)) [
    | inl low ↦
        let e = decode_rune-ascii a s (ltb→lt a 0x80 low) in
        let h' : All (Pass t) (a ∷ runes_after 0 s) = rw e at h in (h'.0, runes-Pass' 0 s tt h'.1)
    | inr high ↦
        let a-high = ltb→le a 0x80 high in
        (beyond a a-high, runes-Pass' _ s (decode_rune-High a s a-high).1 h.1)
  ]
  runes-Pass' (suc k) (a ∷ s) g h = (beyond a g.0, runes-Pass' k s g.1 h)

  bytes-Pass' : (k : ℕ) (s : List ℕ) → All (Pass t) s → All (Pass t) (runes_after k s)
  unfolding runes_after
  bytes-Pass' k [] h = tt
  bytes-Pass' zero (a ∷ s) h = elim (Bool-cases (ltb a 0x80)) [
    | inl low ↦ rw (decode_rune-ascii a s (ltb→lt a 0x80 low)) (h.0, bytes-Pass' 0 s h.1)
    | inr high ↦ (beyond _ (decode_rune-High a s (ltb→le a 0x80 high)).0, bytes-Pass' _ s h.1)
  ]
  bytes-Pass' (suc k) (a ∷ s) h = bytes-Pass' k s h.1

  -- It passes on every rune exactly if it passes on every byte.
  pub beyond_iff : (s : List ℕ) → All (Pass t) (runes s) ↔ All (Pass t) s
  beyond_iff s = (runes-Pass' 0 s tt, bytes-Pass' 0 s)
