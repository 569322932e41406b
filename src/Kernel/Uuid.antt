-- ===== src/Kernel/Uuid.antt =====
-- newID of engine/kernel/uuid.go. Its argument is the array after the random bytes were read into it.
pub mod Shape
pub mod Unique
use Prim.Native.Nat.{bit_and, bit_or}
use grimlocker_public.Base.{ℕ, List, ◌∷◌, ◌++◌, get_or, set, take, drop}
use grimlocker_public.Security.Zkp.Hex.{encode_to_string}

-- The two writes, of the version and of the variant.
unfoldable pub stamp : List ℕ → List ℕ
stamp b =
    let versioned = set b 6 (bit_or (bit_and (get_or b 6 0) 15) 64) in
    set versioned 8 (bit_or (bit_and (get_or versioned 8 0) 63) 128)

-- The hexadecimal digits of so many bytes from one on.
abbrev pub group : ℕ → ℕ → List ℕ → List ℕ
group first n b = encode_to_string (take n (drop first b))

unfoldable pub id_text : List ℕ → List ℕ
id_text b =
    group 0 4 b
    ++ 45 ∷ (group 4 2 b ++ 45 ∷ (group 6 2 b ++ 45 ∷ (group 8 2 b ++ 45 ∷ group 10 6 b)))

abbrev pub new_id : List ℕ → List ℕ
new_id b = id_text (stamp b)
