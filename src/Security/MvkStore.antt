-- ===== src/Security/MvkStore.antt =====
-- engine/security/mvk_store.go, over a guard that zeroizes like that of NewGoMemoryGuard; what
-- Unlock does to the pages is not seen here. The mutex makes every method one step. A slice is the
-- address of its bytes in a heap, since Retrieve hands out the store's own slice. Whether the guard
-- allocates, and the random handle, are arguments of `store`. `walk` is how Go walks a map.
pub mod Revocation
use grimlocker_public.Base.{
  ℕ, Bool, true, false, List, [], ◌∷◌, ◌++◌, Option, none, some, length, map,
}
use grimlocker_public.Base.Dict.{Key, Dict, lookup, insert, erase}
use grimlocker_public.Security.SecretGuard.{zeroize_at}

pub record MvkStore : Type 0 where
  pub handles : Dict ℕ
  pub heap : List (List ℕ)

-- NewLockedMVKStore
unfoldable pub create : MvkStore
create = record { handles = []; heap = [] }

unfoldable pub store : Bool → Key → List ℕ → MvkStore → Option Key × MvkStore
store false handle key s = (none, s)
store true handle key s = (
  some handle,
  record { handles = insert handle (length s.heap) s.handles; heap = s.heap ++ key ∷ [] },
)

-- The slice is the store's own.
unfoldable pub retrieve : Key → MvkStore → Option ℕ
retrieve handle s = lookup handle s.handles

unfoldable pub revoke : Key → MvkStore → MvkStore
revoke handle s = elim (lookup handle s.handles) [
  | none ↦ s
  | some addr ↦ record { handles = erase handle s.handles; heap = zeroize_at addr s.heap }
]

-- The loop of RevokeAll.
unfoldable pub revoke_each : Dict ℕ → MvkStore → MvkStore
revoke_each [] s = s
revoke_each ((handle, addr) ∷ m) s =
    revoke_each m (record { handles = erase handle s.handles; heap = zeroize_at addr s.heap })

unfoldable pub revoke_all : (Dict ℕ → Dict ℕ) → MvkStore → MvkStore
revoke_all walk s = revoke_each (walk s.handles) s

unfoldable pub active_handles : (Dict ℕ → Dict ℕ) → MvkStore → List Key
active_handles walk s = map (λ e. e.0) (walk s.handles)

pub data Call : Type 0 where
  stores : Bool → Key → List ℕ → Call
  revokes : Key → Call
  revokes_all : (Dict ℕ → Dict ℕ) → Call

unfoldable pub step : MvkStore → Call → MvkStore
step s (stores allocates handle key) = (store allocates handle key s).1
step s (revokes handle) = revoke handle s
step s (revokes_all walk) = revoke_all walk s

unfoldable pub run : MvkStore → List Call → MvkStore
run s [] = s
run s (c ∷ cs) = run (step s c) cs
