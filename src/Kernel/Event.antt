-- ===== src/Kernel/Event.antt =====
-- engine/kernel/event.go: events, their types, and the channel that routes them. Strings are lists
-- of bytes, and a timestamp is the bit pattern of its int64.
pub mod Channel
use grimlocker_public.Base.{
  ℕ, zero, suc, ◌+◌, ◌-◌, List, [], ◌∷◌, Option, none, some, take, ◌==◌, if◌then◌else◌,
}
use grimlocker_public.Base.Int.{ℤ}
use grimlocker_public.Gql.Opcodes.{codes}
use grimlocker_public.Gql.Utf8.{decode_rune}

abbrev pub EventType : Type 0
EventType = List ℕ

pub record Event : Type 0 where
  pub id : List ℕ
  pub event_type : EventType
  pub payload : List ℕ
  pub reply_to : List ℕ
  pub origin : List ℕ
  pub timestamp : ℕ
  pub ttl : ℤ

-- The constants of the package, in its order.
abbrev pub declared_types : List EventType
declared_types =
    codes "AUTH.SETUP"
    ∷ codes "AUTH.UNLOCK"
    ∷ codes "AUTH.RESULT"
    ∷ codes "AUTH.LOCKDOWN"
    ∷ codes "AUTH.LOGOUT"
    ∷ codes "AUTH.STATUS"
    ∷ codes "AUTH.INIT_READY"
    ∷ codes "AUTH.KEY_READY"
    ∷ codes "AUTH.READY"
    ∷ codes "AUTH.GET_HANDLE"
    ∷ codes "CRYPTO.ENCRYPT"
    ∷ codes "CRYPTO.DECRYPT"
    ∷ codes "CRYPTO.DERIVE_KEY"
    ∷ codes "CRYPTO.SHRED"
    ∷ codes "CRYPTO.RESULT"
    ∷ codes "STORAGE.WRITE"
    ∷ codes "STORAGE.READ"
    ∷ codes "STORAGE.DELETE"
    ∷ codes "STORAGE.LIST"
    ∷ codes "STORAGE.RESULT"
    ∷ codes "STORAGE.INGEST_PROGRESS"
    ∷ codes "STORAGE.VFS_MOUNT"
    ∷ codes "STORAGE.READY"
    ∷ codes "ENTRY.CREATE"
    ∷ codes "ENTRY.READ"
    ∷ codes "ENTRY.UPDATE"
    ∷ codes "ENTRY.DELETE"
    ∷ codes "ENTRY.INGEST"
    ∷ codes "ENTRY.RESULT"
    ∷ codes "ENTRY.QUERY"
    ∷ codes "TOOL.SSH_GEN"
    ∷ codes "TOOL.RESULT"
    ∷ codes "SECURITY.MEM_LOCK"
    ∷ codes "SECURITY.ZEROIZE"
    ∷ codes "SECURITY.AUDIT"
    ∷ codes "SECURITY.PANIC"
    ∷ codes "SECURITY.LOCKDOWN"
    ∷ codes "SYNC.BEGIN"
    ∷ codes "SYNC.COMPLETE"
    ∷ codes "SYNC.DISCOVER"
    ∷ codes "SYNC.PAIR"
    ∷ codes "SYNC.PULL"
    ∷ codes "SYNC.PUSH_VERSION"
    ∷ codes "SYNC.CONFLICT"
    ∷ codes "BIOMETRIC.AUTHENTICATE"
    ∷ codes "BIOMETRIC.RESULT"
    ∷ codes "INTEGRITY.CHECK"
    ∷ codes "INTEGRITY.VIOLATION"
    ∷ codes "WORKSPACE.CREATE"
    ∷ codes "WORKSPACE.SWITCH"
    ∷ codes "WORKSPACE.DELETE"
    ∷ codes "WORKSPACE.RESULT"
    ∷ codes "KERNEL.STATUS"
    ∷ codes "KERNEL.STATE_REPORT"
    ∷ codes "KERNEL.STATE_MIRROR"
    ∷ codes "RECONNECT.RESUME"
    ∷ codes "RECONNECT.SYNC"
    ∷ codes "GQL.QUERY"
    ∷ codes "GQL.RESULT"
    ∷ codes "SYSTEM.ERROR"
    ∷ codes "SYSTEM.HEALTH_CHECK"
    ∷ codes "SYSTEM.LOG"
    ∷ []

-- The loop of Channel: `i` is the index of a byte, and the next `k` bytes belong to the last rune.
unfoldable pub dot_index : ℕ → ℕ → List ℕ → Option ℕ
dot_index k i [] = none
dot_index (suc k) i (b ∷ s) = dot_index k (i + 1) s
dot_index zero i (b ∷ s) =
    let c = decode_rune b s in
    let rest = dot_index (c.1 - 1) (i + 1) s in if c.0 == b'.' then some i else rest

unfoldable pub channel : EventType → List ℕ
channel s = elim (dot_index 0 0 s) [ none ↦ s | some i ↦ take i s ]
