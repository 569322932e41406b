-- ===== src/Kernel/Event/Channel.antt =====
-- The channel of an event type, read byte by byte.
use grimlocker_public.Base.{
  ℕ, zero, suc, ◌+◌, ◌-◌, ◌≤◌, ◌≡◌, refl, ap, ◌∙◌, Bool, true, false, ◌&&◌, List, [], ◌∷◌, Option,
  none, some, arith, ltb, ltb→lt, ltb→le, take, ◌==◌, if◌then◌else◌, Bool-cases, inl, inr, leb,
}
use grimlocker_public.Gql.Utf8.{decode_rune}
use grimlocker_public.Gql.Utf8.Checks.{High, decode_rune-ascii, decode_rune-High}
use grimlocker_public.Kernel.Event.{EventType, dot_index, channel, declared_types}

-- The bytes before the first dot.
unfoldable pub before_dot : List ℕ → List ℕ
before_dot [] = []
before_dot (b ∷ s) = let rest = before_dot s in if b == b'.' then [] else b ∷ rest

-- What `channel` takes, from an index on.
abbrev taken : List ℕ → ℕ → Option ℕ → List ℕ
taken s i none = s
taken s i (some j) = take (j - i) s

taken-suc :
    (b : ℕ) (s : List ℕ) (i : ℕ) (o : Option ℕ)
    → ((j : ℕ) → o ≡ some j → i + 1 ≤ j)
    → taken (b ∷ s) i o ≡ b ∷ taken s (i + 1) o
taken-suc b s i none h = refl
taken-suc b s i (some j) h =
    let e : j - i ≡ suc (j - (i + 1)) = omega (arith, h j refl) in ap (λ n. take n (b ∷ s)) e

dot_index-le : (k i j : ℕ) (s : List ℕ) → dot_index k i s ≡ some j → i ≤ j
unfolding dot_index
dot_index-le k i j [] h = cc
dot_index-le (suc k) i j (b ∷ s) h = omega (arith, dot_index-le k (i + 1) j s h)
dot_index-le zero i j (b ∷ s) h = ground (arith, dot_index-le ((decode_rune b s).1 - 1) (i + 1) j s)

channel_from : (k i : ℕ) (s : List ℕ) → High k s → taken s i (dot_index k i s) ≡ before_dot s
unfolding dot_index before_dot
channel_from k i [] h = refl
channel_from (suc k) i (b ∷ s) h =
    let other : (b == b'.') ≡ false = ground (arith, h.0) in
    rw (other, taken-suc b s i (dot_index k (i + 1) s) (λ j e. dot_index-le k (i + 1) j s e))
      (ap (λ r. b ∷ r) (channel_from k (i + 1) s h.1))
channel_from zero i (b ∷ s) h = elim (Bool-cases (ltb b 0x80)) [
  | inl low ↦ rw (decode_rune-ascii b s (ltb→lt b 0x80 low)) (elim (Bool-cases (b == b'.')) [
    | inl dot ↦ let e : i - i ≡ 0 = omega arith in rw dot (ap (λ n. take n (b ∷ s)) e)
    | inr other ↦
        rw (other, taken-suc b s i (dot_index 0 (i + 1) s) (λ j. dot_index-le 0 (i + 1) j s))
          (ap (λ r. b ∷ r) (channel_from 0 (i + 1) s tt))
  ])
  | inr high ↦
      let (beyond, more) = decode_rune-High b s (ltb→le b 0x80 high) in
      let k : ℕ = (decode_rune b s).1 - 1 in
      let no_dot : ((decode_rune b s).0 == b'.') ≡ false = ground arith in
      let other : (b == b'.') ≡ false = ground arith in
      rw (no_dot, other, taken-suc b s i (dot_index k (i + 1) s) (λ j. dot_index-le k (i + 1) j s))
        (ap (λ r. b ∷ r) (channel_from k (i + 1) s more))
]

-- Channel, which walks the runes of an event type, returns the bytes before its first dot, or all
-- bytes if there is none.
pub channel_bytes : (t : EventType) → channel t ≡ before_dot t
unfolding channel
channel_bytes t = whole (dot_index 0 0 t) ∙ channel_from 0 0 t tt
  where
    whole : (o : Option ℕ) → (elim o [ none ↦ t | some i ↦ take i t ]) ≡ taken t 0 o
    whole none = refl
    whole (some i) = let e : i ≡ i - 0 = omega arith in ap (λ n. take n t) e

-- The channel of every declared type is written in capitals.
abbrev pub are_capitals : List ℕ → Bool
are_capitals [] = true
are_capitals (c ∷ cs) = leb b'A' c && leb c b'Z' && are_capitals cs

abbrev all_in_capitals : List EventType → Bool
all_in_capitals [] = true
all_in_capitals (t ∷ ts) = are_capitals (before_dot t) && all_in_capitals ts

declared_in_capitals : all_in_capitals declared_types ≡ true
unfolding before_dot
declared_in_capitals = refl
