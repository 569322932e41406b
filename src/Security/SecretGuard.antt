-- ===== src/Security/SecretGuard.antt =====
-- engine/security/secret_guard.go, with `zeroize` of engine/security/memguard.go. The mutex makes
-- every method one step. A buffer is its address in a heap, so that the zeros of a wipe can be seen
-- after its slot is gone; the random token of `store` is an argument, `none` if the read failed.
pub mod Wiping
use grimlocker_public.Base.{
  ℕ, suc, Bool, true, false, List, [], ◌∷◌, ◌++◌, Option, none, some, if◌then◌else◌, length, get_or,
  set, replicate,
}
use grimlocker_public.Base.Dict.{Key, Dict, lookup, insert, erase}

pub record SecretGuard : Type 0 where
  pub slots : Dict ℕ
  pub heap : List (List ℕ)

-- NewSecretGuard
unfoldable pub create : SecretGuard
create = record { slots = []; heap = [] }

abbrev pub zeroize : List ℕ → List ℕ
zeroize [] = []
zeroize (b ∷ bs) = 0 ∷ zeroize bs

-- `zeroize(buf)` for the buffer at an address.
abbrev pub zeroize_at : ℕ → List (List ℕ) → List (List ℕ)
zeroize_at addr heap = set heap addr (zeroize (get_or heap addr []))

-- Store copies the secret into a new buffer.
unfoldable pub store : Option Key → List ℕ → SecretGuard → Option Key × SecretGuard
store none secret g = (none, g)
store (some token) secret g = (
  some token,
  record { slots = insert token (length g.heap) g.slots; heap = g.heap ++ secret ∷ [] },
)

-- Wipe
unfoldable pub wipe : Key → SecretGuard → SecretGuard
wipe token g = elim (lookup token g.slots) [
  | none ↦ g
  | some addr ↦ record { slots = erase token g.slots; heap = zeroize_at addr g.heap }
]

-- Retrieve returns a copy, and wipes the buffer.
unfoldable pub retrieve : Key → SecretGuard → Option (List ℕ) × SecretGuard
retrieve token g = elim (lookup token g.slots) [
  | none ↦ (none, g)
  | some addr ↦ (
    some (get_or g.heap addr []),
    record { slots = erase token g.slots; heap = zeroize_at addr g.heap },
  )
]

-- The loop of WipeAll over the slots, in the order of a walk.
unfoldable pub wipe_slots : Dict ℕ → SecretGuard → SecretGuard
wipe_slots [] g = g
wipe_slots ((token, addr) ∷ m) g =
    wipe_slots m (record { slots = erase token g.slots; heap = zeroize_at addr g.heap })

unfoldable pub wipe_all : (Dict ℕ → Dict ℕ) → SecretGuard → SecretGuard
wipe_all walk g = wipe_slots (walk g.slots) g

abbrev pub count : SecretGuard → ℕ
count g = length g.slots
