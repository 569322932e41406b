-- ===== src/Gql/ErrorNames.antt =====
-- engine/gql/errors.go: the names of the codes of errors.
pub mod Naming
use grimlocker_public.Base.{ℕ, ◌+◌, Bool, List, [], ◌∷◌, ◌==◌, if◌then◌else◌}
use grimlocker_public.Base.Int.{ℤ, negsuc, pos_part, neg_part}
use grimlocker_public.Gql.Opcodes.{codes}

-- `negsuc n` is -(n + 1).
abbrev pub error_code_names : List (ℤ × List ℕ)
error_code_names =
    (negsuc 0, codes "BUS_TIMEOUT")
    ∷ (negsuc 1, codes "INVALID_STORAGE_RESPONSE")
    ∷ (negsuc 2, codes "STORAGE_ERROR")
    ∷ (negsuc 9, codes "MISSING_ENTRY_ID")
    ∷ (negsuc 10, codes "ENTRY_NOT_FOUND")
    ∷ (negsuc 19, codes "CATEGORY_QUERY_FAILED")
    ∷ (negsuc 29, codes "CREATE_FAILED")
    ∷ (negsuc 30, codes "UPDATE_FAILED")
    ∷ (negsuc 31, codes "DELETE_FAILED")
    ∷ (negsuc 99, codes "DISPATCHER_UNAVAILABLE")
    ∷ (negsuc 100, codes "INVALID_FRAME")
    ∷ (negsuc 101, codes "SCHEMA_VALIDATION")
    ∷ (negsuc 102, codes "ACL_DENIED")
    ∷ (negsuc 103, codes "NOT_A_QUERY_FRAME")
    ∷ (negsuc 104, codes "DISPATCH_ERROR")
    ∷ []

abbrev pub same_code : ℤ → ℤ → Bool
same_code a b = pos_part a + neg_part b == pos_part b + neg_part a

abbrev pub name_in : List (ℤ × List ℕ) → ℤ → List ℕ
name_in [] code = codes "UNKNOWN"
name_in ((c, name) ∷ names) code =
    let rest = name_in names code in if same_code c code then name else rest

unfoldable pub error_code_name : ℤ → List ℕ
error_code_name code = name_in error_code_names code
