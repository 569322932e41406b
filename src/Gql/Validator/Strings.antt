-- ===== src/Gql/Validator/Strings.antt =====
-- What the string checks of the validator accept, byte by byte. The code walks runes.
use Prim.Native.String.{String}
use grimlocker_public.Base.{
  ℕ, ◌≤◌, ◌<◌, ◌≡◌, refl, ◌↔◌, Bool, true, false, not, ◌&&◌, ◌||◌, ◌∙◌, List, [], ◌∷◌, arith,
  length, All, ltb, ◌==◌, Bool-cases, inl, inr, ltb→le, le→ltb,
}
use grimlocker_public.Base.Outcome.{ok, guard-eq-ok}
use grimlocker_public.Gql.Utf8.{runes}
use grimlocker_public.Gql.Utf8.Checks.{Pass, ascii_iff, beyond_iff}
use grimlocker_public.Gql.Validator.{
  syntactic, is_ident_char, is_empty, validate_string_field, check_ident_chars, check_text_chars,
  validate_identifier, validate_printable,
}

-- Printable text: no control character but the tab, and no DEL.
abbrev pub is_text_char : ℕ → Bool
is_text_char c = not (ltb c 0x20 && not (c == b'\t')) && not (c == 0x7F)

-- A letter, a digit, or one of `_`, `-` and `.`, by its ASCII code.
abbrev pub is_name_char : ℕ → Bool
is_name_char c =
    (ltb 96 c && ltb c 123)
    || ((ltb 64 c && ltb c 91)
        || ((ltb 47 c && ltb c 58) || ((c == 95) || ((c == 45) || (c == 46)))))

-- The two alphabets, over bytes.
abbrev pub IsIdentifier : List ℕ → Type 0
IsIdentifier = All (Pass is_name_char)

abbrev pub IsText : List ℕ → Type 0
IsText = All (Pass is_text_char)

is_ident_char-is_name_char : (c : ℕ) → is_ident_char c ≡ is_name_char c
unfolding is_ident_char
is_ident_char-is_name_char c = ground arith

name-ascii : (c : ℕ) → is_name_char c ≡ true → c < 0x80
name-ascii c h = ground arith

text-beyond : (c : ℕ) → 0x80 ≤ c → is_text_char c ≡ true
text-beyond c h = ground arith

check_ident_iff :
    (name : String) (cs : List ℕ) → (check_ident_chars name cs ≡ ok tt) ↔ IsIdentifier cs
unfolding check_ident_chars
check_ident_iff name [] = (λ h. tt, λ h. refl)
check_ident_iff name (c ∷ cs) =
    let same = is_ident_char-is_name_char c in
    elim (Bool-cases (is_name_char c)) [
      | inl good ↦
          let passes : is_ident_char c ≡ true = same ∙ good in
          (
            λ h. (good, (check_ident_iff name cs).0 (rw passes at h)),
            λ h. rw passes ((check_ident_iff name cs).1 h.1),
          )
      | inr bad ↦
          let fails : is_ident_char c ≡ false = same ∙ bad in
          (λ h. absurd (cc (fails, h)), λ h. absurd (cc (bad, h.0)))
    ]

module _ (name : String) where
  IsText-accepted : (cs : List ℕ) → check_text_chars name cs ≡ ok tt → IsText cs
  unfolding check_text_chars
  IsText-accepted [] h = tt
  IsText-accepted (c ∷ cs) h =
      let control : Bool = ltb c 0x20 && not (c == b'\t') in
      let (p, r) = guard-eq-ok control (syntactic name "control character in text field") _ h in
      let (q, s) = guard-eq-ok (c == 0x7F) (syntactic name "DEL character in text field") _ r in
      (ground arith, IsText-accepted cs s)

  text_passes : (cs : List ℕ) → IsText cs → check_text_chars name cs ≡ ok tt
  unfolding check_text_chars
  text_passes [] h = refl
  text_passes (c ∷ cs) h = ground (arith, text_passes cs h.1)

check-IsText_iff : (name : String) (cs : List ℕ) → (check_text_chars name cs ≡ ok tt) ↔ IsText cs
check-IsText_iff name cs = (IsText-accepted name cs, text_passes name cs)

-- An identifier field is accepted exactly if every byte of it is an ASCII letter or digit or one
-- of `_`, `-` and `.`.
pub validate_identifier_iff :
    (name : String) (s : List ℕ) → (validate_identifier name s ≡ ok tt) ↔ IsIdentifier s
unfolding validate_identifier
validate_identifier_iff name [] = (λ h. tt, λ h. refl)
validate_identifier_iff name (c ∷ cs) =
    let runewise = check_ident_iff name (runes (c ∷ cs)) in
    let bytewise = ascii_iff is_name_char name-ascii (c ∷ cs) in
    (λ h. bytewise.0 (runewise.0 h), λ h. runewise.1 (bytewise.1 h))

-- A text field is accepted exactly if no byte of it is a control character other than the tab, or
-- DEL.
pub validate_printable_iff :
    (name : String) (s : List ℕ) → (validate_printable name s ≡ ok tt) ↔ IsText s
unfolding validate_printable
validate_printable_iff name [] = (λ h. tt, λ h. refl)
validate_printable_iff name (c ∷ cs) =
    let runewise = check-IsText_iff name (runes (c ∷ cs)) in
    let bytewise = beyond_iff is_text_char text-beyond (c ∷ cs) in
    (λ h. bytewise.0 (runewise.0 h), λ h. runewise.1 (bytewise.1 h))

pub validate_string_field_iff :
    (name : String) (s : List ℕ) (required : Bool) (max_len : ℕ)
    → (validate_string_field name s required max_len ≡ ok tt)
      ↔ (((required && is_empty s) ≡ false) × (length s ≤ max_len))
unfolding validate_string_field
validate_string_field_iff name s required max_len = (
  λ h.
      let missing = syntactic name "required field is empty" in
      let long = syntactic name "exceeds maximum length" in
      let (p, r) = guard-eq-ok (required && is_empty s) missing _ h in
      let (q, _) = guard-eq-ok (ltb max_len (length s)) long _ r in (p, ltb→le _ _ q),
  λ h. rw (h.0, le→ltb _ _ h.1),
)
