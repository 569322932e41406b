-- ===== src/Kernel/Uuid/Shape.antt =====
-- The form of the texts of engine/kernel/uuid.go: a UUID of version 4.
use grimlocker_public.Base.{
  ◌≡◌, refl, sym, ap, subst, ◌∙◌, ℕ, zero, suc, ◌+◌, ◌*◌, ◌/◌, ◌%◌, ◌≤◌, ◌<◌, ◌⊎◌, inl, inr, List,
  [], ◌∷◌, ◌++◌, length, get_or, take, drop, arith, length-take, length-drop, take-drop_step,
  get_or-set, get_or-set_other, length-set, set, All, All-take, All-drop, Bool-cases, ltb, ltb→lt,
  ltb→le,
}
use grimlocker_public.Wire.{IsByte, IsBytes}
use grimlocker_public.Security.Zkp.Hex.{encode_to_string, hex_digit, length-encode_to_string}
use grimlocker_public.Kernel.Uuid.{stamp, group, id_text, new_id}
use grimlocker_public.Kernel.Uuid.Unique.{stamp-with_bytes, length-stamp, stamp-IsBytes}

-- One of 0 to 9 and a to f.
abbrev pub IsHexDigit : ℕ → Type 0
IsHexDigit c = ((47 < c) × (c < 58)) ⊎ ((96 < c) × (c < 103))

-- One of 8, 9, a and b.
abbrev pub IsVariant : ℕ → Type 0
IsVariant c = (c ≡ 56) ⊎ ((c ≡ 57) ⊎ ((c ≡ 97) ⊎ (c ≡ 98)))

abbrev pub IsGroup : ℕ → List ℕ → Type 0
IsGroup n s = (length s ≡ n) × All IsHexDigit s

-- Five groups of 8, 4, 4, 4 and 12 lowercase hexadecimal digits with dashes between them; the third
-- starts with a 4, and the fourth with one of 8, 9, a and b.
pub record IsUuid4 (s : List ℕ) : Type 0 where
  pub time_low : List ℕ
  pub time_mid : List ℕ
  pub time_high : List ℕ
  pub clock_seq : List ℕ
  pub node : List ℕ
  pub parts : s ≡ time_low ++ 45 ∷ (time_mid ++ 45 ∷ (time_high ++ 45 ∷ (clock_seq ++ 45 ∷ node)))
  pub low_digits : IsGroup 8 time_low
  pub mid_digits : IsGroup 4 time_mid
  pub high_digits : IsGroup 4 time_high
  pub seq_digits : IsGroup 4 clock_seq
  pub node_digits : IsGroup 12 node
  pub version : get_or time_high 0 0 ≡ 52
  pub variant : IsVariant (get_or clock_seq 0 0)

hex_digit-IsHexDigit : (n : ℕ) → n < 16 → IsHexDigit (hex_digit n)
hex_digit-IsHexDigit n h = elim (Bool-cases (ltb n 10)) [
  | inl small ↦ let le = ltb→lt n 10 small in rw small (inl (omega arith, omega arith))
  | inr large ↦ let le = ltb→le n 10 large in rw large (inr (omega arith, omega arith))
]

encode_to_string-digits : (bs : List ℕ) → IsBytes bs → All IsHexDigit (encode_to_string bs)
unfolding encode_to_string
encode_to_string-digits [] h = tt
encode_to_string-digits (b ∷ bs) h = (
  hex_digit-IsHexDigit (b / 16) (omega (arith, h.0)),
  (hex_digit-IsHexDigit (b % 16) (omega arith), encode_to_string-digits bs h.1),
)

hex_digit-IsVariant : (k : ℕ) → k < 4 → IsVariant (hex_digit (8 + k))
hex_digit-IsVariant zero h = inl refl
hex_digit-IsVariant (suc zero) h = inr (inl refl)
hex_digit-IsVariant (suc (suc zero)) h = inr (inr (inl refl))
hex_digit-IsVariant (suc (suc (suc zero))) h = inr (inr (inr refl))
hex_digit-IsVariant (suc (suc (suc (suc k)))) h = absurd (omega arith)

group-IsGroup :
    (first n : ℕ) (b : List ℕ)
    → first + n ≤ length b
    → IsBytes b
    → IsGroup (2 * n) (group first n b)
group-IsGroup first n b h k =
    let taken = length-take n (drop first b) in
    let dropped = length-drop first b in
    (
      length-encode_to_string (take n (drop first b)) ∙ omega arith,
      encode_to_string-digits (take n (drop first b))
          (All-take IsByte n (drop first b) (All-drop IsByte first b k)),
    )

group-first :
    (first n : ℕ) (b : List ℕ)
    → first < length b
    → get_or (group first (suc n) b) 0 0 ≡ hex_digit (get_or b first 0 / 16)
unfolding encode_to_string
group-first first n b h = rw (take-drop_step b n first 0 h) refl

id_text_lem :
    (b : List ℕ) (x y : ℕ)
    → length b ≡ 16
    → IsBytes b
    → get_or b 6 0 ≡ 64 + x
    → x < 16
    → get_or b 8 0 ≡ 128 + y
    → y < 64
    → IsUuid4 (id_text b)
unfolding id_text
id_text_lem b x y l bytes e h f k =
    let version_digit : (64 + x) / 16 ≡ 4 = omega arith in
    let variant_digit : (128 + y) / 16 ≡ 8 + y / 16 = omega arith in
    record {
      time_low = group 0 4 b;
      time_mid = group 4 2 b;
      time_high = group 6 2 b;
      clock_seq = group 8 2 b;
      node = group 10 6 b;
      parts = refl;
      low_digits = group-IsGroup 0 4 b (omega arith) bytes;
      mid_digits = group-IsGroup 4 2 b (omega arith) bytes;
      high_digits = group-IsGroup 6 2 b (omega arith) bytes;
      seq_digits = group-IsGroup 8 2 b (omega arith) bytes;
      node_digits = group-IsGroup 10 6 b (omega arith) bytes;
      version =
          group-first 6 1 b (omega arith)
          ∙ ap (λ v. hex_digit (v / 16)) e
          ∙ ap hex_digit version_digit;
      variant =
          subst IsVariant
            (sym (
              group-first 8 1 b (omega arith)
              ∙ ap (λ v. hex_digit (v / 16)) f
              ∙ ap hex_digit variant_digit))
            (hex_digit-IsVariant (y / 16) (omega arith));
    }

-- The ID of 16 random bytes is the text of a UUID of version 4: five groups of 8, 4, 4, 4 and 12
-- lowercase hexadecimal digits with dashes between them, of which the third starts with a 4 and the
-- fourth with one of 8, 9, a and b.
pub new_id-IsUuid4 : (b : List ℕ) → length b ≡ 16 → IsBytes b → IsUuid4 (new_id b)
new_id-IsUuid4 b l h =
    let x = get_or b 6 0 % 16 in
    let y = get_or b 8 0 % 64 in
    let written = stamp-with_bytes b h in
    id_text_lem (stamp b) x y (length-stamp b h ∙ l) (stamp-IsBytes b h)
      (ap (λ s. get_or s 6 0) written
        ∙ get_or-set_other (set b 6 (64 + x)) 6 8 (128 + y) 0 (omega arith)
        ∙ get_or-set b 6 (64 + x) 0 (omega arith))
      (omega arith)
      (ap (λ s. get_or s 8 0) written
        ∙ get_or-set (set b 6 (64 + x)) 8 (128 + y) 0 (omega (arith, length-set b 6 (64 + x))))
      (omega arith)
