-- ===== src/Gql/ErrorNames/Naming.antt =====
-- A name of engine/gql/errors.go stands for one code.
use grimlocker_public.Base.{
  ◌≡◌, ◌≢◌, refl, ap, sym, ◌∙◌, ℕ, ◌⊎◌, inl, inr, true, List, [], ◌∷◌, Option, none, some, All,
  bytes_eq, if◌then◌else◌, arith, Bool-cases,
}
use grimlocker_public.Base.Int.{ℤ, pos, negsuc}
use grimlocker_public.Gql.Opcodes.{codes}
use grimlocker_public.Gql.ErrorNames.{error_code_names, same_code, name_in, error_code_name}

-- The code of a name.
abbrev code_in : List (ℤ × List ℕ) → List ℕ → Option ℤ
code_in [] name = none
code_in ((c, n) ∷ names) name = if bytes_eq n name then some c else code_in names name

abbrev IsNamed : ℤ × List ℕ → Type 0
IsNamed e = code_in error_code_names e.1 ≡ some e.0

error_code_names-IsNamed : All IsNamed error_code_names
error_code_names-IsNamed = (
  refl,
  (
    refl,
    (
      refl,
      (
        refl,
        (refl, (refl, (refl, (refl, (refl, (refl, (refl, (refl, (refl, (refl, (refl, tt))))))))))),
      ),
    ),
  ),
)

same_code→eq : (a b : ℤ) → same_code a b ≡ true → a ≡ b
same_code→eq (pos m) (pos n) h = ap pos (ground (arith, h))
same_code→eq (pos m) (negsuc n) h = absurd (ground (arith, h))
same_code→eq (negsuc m) (pos n) h = absurd (ground (arith, h))
same_code→eq (negsuc m) (negsuc n) h = ap negsuc (ground (arith, h))

known_or_named :
    (names : List (ℤ × List ℕ)) (code : ℤ)
    → All IsNamed names
    → (name_in names code ≡ codes "UNKNOWN")
      ⊎ (code_in error_code_names (name_in names code) ≡ some code)
known_or_named [] code h = inl refl
known_or_named ((c, n) ∷ names) code h = elim (Bool-cases (same_code c code)) [
  | inl same ↦ inr (rw same (h.0 ∙ ap some (same_code→eq c code same)))
  | inr other ↦ rw other (known_or_named names code h.1)
]

-- Two codes with the same name, other than UNKNOWN, are the same code.
pub error_code_name-injective :
    (a b : ℤ) → error_code_name a ≢ codes "UNKNOWN" → error_code_name a ≡ error_code_name b → a ≡ b
unfolding error_code_name
error_code_name-injective a b known same =
    elim (known_or_named error_code_names a error_code_names-IsNamed) [
      | inl unknown ↦ absurd (known unknown)
      | inr here ↦ elim (known_or_named error_code_names b error_code_names-IsNamed) [
        | inl unknown ↦ absurd (known (same ∙ unknown))
        | inr there ↦
            let both : some a ≡ some b = sym here ∙ ap (code_in error_code_names) same ∙ there in cc
      ]
    ]
