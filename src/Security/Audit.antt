-- ===== src/Security/Audit.antt =====
-- engine/security/audit.go. The mutex makes every method one step. Strings and hashes are lists of
-- bytes, a timestamp is the bit pattern of its int64, and `sha256` is crypto/sha256 (`Sum`). Both
-- indices are below the capacity, so no read or write of the ring is out of range.
pub mod Newest
pub mod Ring
pub mod Refinement
pub mod Link
pub mod Chain
use grimlocker_public.Base.{
  ℕ, zero, suc, ◌+◌, ◌-◌, ◌%◌, ◌/◌, ◌^◌, Bool, List, [], ◌∷◌, ◌++◌, Option, none, some, ltb, leb,
  ◌==◌, if◌then◌else◌, length, get_or, set, take, drop, replicate,
}
use grimlocker_public.Base.Int.{ℤ, pos, negsuc}
use grimlocker_public.Wire.{be32}

-- A slice in a stored event: its own bytes, or a slice of the array `lastHash` of the log.
pub data Slice : Type 0 where
  own : List ℕ → Slice
  of_last_hash : Slice

pub record SecurityEvent : Type 0 where
  pub timestamp : ℕ
  pub level : List ℕ
  pub module_name : List ℕ
  pub message : List ℕ
  pub subject_id : List ℕ
  pub prev_hash : Slice
  pub hash : List ℕ

pub record AuditLog : Type 0 where
  pub ring : List SecurityEvent
  pub cap : ℕ
  pub head : ℕ
  pub size : ℕ
  pub last_hash : List ℕ

-- The zero value of the struct.
abbrev pub zero_event : SecurityEvent
zero_event = record {
  timestamp = 0;
  level = [];
  module_name = [];
  message = [];
  subject_id = [];
  prev_hash = own [];
  hash = [];
}

-- The capacity that NewAuditLog takes for an argument.
abbrev pub capacity_or_default : ℤ → ℕ
capacity_or_default (pos zero) = 1024
capacity_or_default (pos (suc n)) = suc n
capacity_or_default (negsuc n) = 1024

unfoldable pub create : ℤ → AuditLog
create capacity = record {
  ring = replicate (capacity_or_default capacity) zero_event;
  cap = capacity_or_default capacity;
  head = 0;
  size = 0;
  last_hash = replicate 32 0;
}

-- An int64 that is written in network order.
abbrev pub be64 : ℕ → List ℕ
be64 v = be32 (v / 2 ^ 32) ++ be32 (v % 2 ^ 32)

-- What is hashed for an event after the hash `last`.
unfoldable pub digest_input : List ℕ → SecurityEvent → List ℕ
digest_input last e =
    last ++ (be64 e.timestamp ++ (e.level ++ (e.module_name ++ (e.message ++ e.subject_id))))

-- An event without a timestamp gets the time of the call.
abbrev pub stamped : ℕ → SecurityEvent → SecurityEvent
stamped now e = if e.timestamp == 0 then record e { timestamp = now } else e

-- The slot after the newest event, and what moves when it is written.
unfoldable pub write_slot : SecurityEvent → AuditLog → AuditLog
write_slot e a =
    let ring = set a.ring ((a.head + a.size) % a.cap) e in
    if ltb a.size a.cap
    then record a { ring = ring; size = a.size + 1 }
    else record a { ring = ring; head = (a.head + 1) % a.cap }

-- `a.ring[(start+i)%a.cap]` for the next `n` values of i.
unfoldable pub slots : List SecurityEvent → ℕ → ℕ → ℕ → ℕ → List SecurityEvent
slots ring cap start i zero = []
slots ring cap start i (suc n) =
    get_or ring ((start + i) % cap) zero_event ∷ slots ring cap start (i + 1) n

module _ (sha256 : List ℕ → List ℕ) where
  -- The event as it is stored after the hash `last`.
  unfoldable pub sealed : ℕ → List ℕ → SecurityEvent → SecurityEvent
  sealed now last e =
      let e' = stamped now e in
      record e' { prev_hash = of_last_hash; hash = sha256 (digest_input last e') }

  -- `copy(a.lastHash[:], e.Hash)` overwrites as much of the array as the hash is long.
  unfoldable pub append : ℕ → SecurityEvent → AuditLog → AuditLog
  append now e a =
      let e' = sealed now a.last_hash e in
      let kept = take 32 e'.hash in
      write_slot e' (record a { last_hash = kept ++ drop (length kept) a.last_hash })

-- Recent; `none` is the panic of `make` on a negative length.
unfoldable pub recent : ℤ → AuditLog → Option (List SecurityEvent)
recent (negsuc n) a = none
recent (pos n) a =
    let n' = if ltb a.size n then a.size else n in
    let start = (a.head + a.size - n' + a.cap) % a.cap in some (slots a.ring a.cap start 0 n')

unfoldable pub drain : AuditLog → List SecurityEvent × AuditLog
drain a = (slots a.ring a.cap a.head 0 a.size, record a { size = 0; head = 0 })

-- The bytes that a reader finds in a slice of an event.
abbrev pub bytes_of : AuditLog → Slice → List ℕ
bytes_of a (own bs) = bs
bytes_of a of_last_hash = a.last_hash
