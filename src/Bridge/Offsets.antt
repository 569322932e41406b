-- ===== src/Bridge/Offsets.antt =====
-- EncodeOffsetsJSON of engine/bridge/rustbridge_helpers.go.
pub mod Reading
use grimlocker_public.Base.{ℕ, suc, List, [], ◌∷◌, ◌++◌, ltb, if◌then◌else◌}
use grimlocker_public.Base.Int.{ℤ}
use grimlocker_public.Base.Decimal.{decimal_ℤ}

-- The loop over the offsets, from the i-th on: 44 is a comma.
unfoldable pub encode_from : ℕ → List ℤ → List ℕ
encode_from i [] = []
encode_from i (o ∷ os) =
    (if ltb 0 i then 44 ∷ [] else []) ++ (decimal_ℤ o ++ encode_from (suc i) os)

-- 91 and 93 are the brackets.
unfoldable pub encode_offsets_json : List ℤ → List ℕ
encode_offsets_json os = 91 ∷ (encode_from 0 os ++ 93 ∷ [])
