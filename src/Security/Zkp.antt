-- ===== src/Security/Zkp.antt =====
-- engine/security/zkp.go. The mutex makes every method one step; a reading of the clock or of the
-- random source is an argument, `none` for a source that fails. `hash` is blake2b.New256 with one
-- Write and Sum. A walk over a map is a walk over its entries.
pub mod Hex
pub mod Lifecycle
pub mod Accepting
pub mod Honest
pub mod Replay
use Prim.Native.Nat.{bit_xor}
use grimlocker_public.Base.{
  ℕ, zero, suc, ◌+◌, ◌*◌, Bool, true, false, not, ◌||◌, List, [], ◌∷◌, Option, none, some, length,
  bytes_eq, ◌==◌, ltb, if◌then◌else◌,
}
use grimlocker_public.Base.Dict.{Key, Dict, lookup, insert, erase}
use grimlocker_public.Security.Zkp.Hex.{encode_to_string, decode_string}

abbrev pub nonce_size : ℕ
nonce_size = 32

abbrev pub proof_size : ℕ
proof_size = 32

-- Five minutes in nanoseconds.
abbrev pub nonce_ttl : ℕ
nonce_ttl = 5 * 60000000000

pub record ZkpVerifier : Type 0 where
  pub pending : Dict (List ℕ)
  pub expiries : Dict ℕ

pub record Challenge : Type 0 where
  pub nonce : List ℕ
  pub expires_at : ℕ

-- VerifyProof returns nil or one of its errors.
pub data Verdict : Type 0 where
  accepted : Verdict
  not_found : Verdict
  expired : Verdict
  bad_length : Verdict
  mismatched : Verdict

unfoldable pub new_verifier : ZkpVerifier
new_verifier = record { pending = []; expiries = [] }

-- Both maps lose the entry.
abbrev pub consume : Key → ZkpVerifier → ZkpVerifier
consume id v = record { pending = erase id v.pending; expiries = erase id v.expiries }

unfoldable pub issue_challenge :
    Option (List ℕ) → Option (List ℕ) → ℕ → ZkpVerifier → Option (Key × Challenge) × ZkpVerifier
issue_challenge none _ now v = (none, v)
issue_challenge (some raw_id) none now v = (none, v)
issue_challenge (some raw_id) (some nonce) now v =
    let id = encode_to_string raw_id in
    let expiry = now + nonce_ttl in
    (
      some (id, record { nonce = encode_to_string nonce; expires_at = expiry }),
      record { pending = insert id nonce v.pending; expiries = insert id expiry v.expiries },
    )

-- The loop `out[i] = key[i] ^ nonceHash[i]`, over a key and a hash of the same length.
abbrev pub xor_bytes : List ℕ → List ℕ → List ℕ
xor_bytes [] hs = []
xor_bytes (k ∷ ks) [] = []
xor_bytes (k ∷ ks) (h ∷ hs) = bit_xor k h ∷ xor_bytes ks hs

module _ (hash : List ℕ → List ℕ) where
  -- What VerifyProof does once the challenge is consumed.
  unfoldable pub check_proof : Option (List ℕ) → Option ℕ → ℕ → List ℕ → List ℕ → Verdict
  check_proof none _ now key proof = not_found
  check_proof (some nonce) expiry now key proof =
      if ltb (elim expiry [ none ↦ 0 | some t ↦ t ]) now
      then expired
      else if not (length key == proof_size) || not (length proof == proof_size)
      then bad_length
      else if bytes_eq (xor_bytes key (hash nonce)) proof
      then accepted
      else mismatched

  unfoldable pub verify_proof : Key → ℕ → List ℕ → List ℕ → ZkpVerifier → Verdict × ZkpVerifier
  verify_proof id now key proof v =
      (check_proof (lookup id v.pending) (lookup id v.expiries) now key proof, consume id v)

  unfoldable pub compute_proof : List ℕ → List ℕ → Option (List ℕ)
  compute_proof key nonce_hex = elim (decode_string nonce_hex) [
    | none ↦ none
    | some nonce ↦
        if length nonce == nonce_size
        then if length key == proof_size then some (xor_bytes key (hash nonce)) else none
        else none
  ]

-- The loop of PendingCount over the expiries.
abbrev pub count_live : Dict ℕ → ℕ → ZkpVerifier → ℕ × ZkpVerifier
count_live [] now v = (0, v)
count_live ((id, expiry) ∷ m) now v =
    let live = count_live m now v in
    let stale = count_live m now (consume id v) in
    if ltb now expiry then (suc live.0, live.1) else stale

unfoldable pub pending_count : ℕ → ZkpVerifier → ℕ × ZkpVerifier
pending_count now v = count_live v.expiries now v

-- One tick of cleanupLoop.
abbrev pub drop_expired : Dict ℕ → ℕ → ZkpVerifier → ZkpVerifier
drop_expired [] now v = v
drop_expired ((id, expiry) ∷ m) now v =
    drop_expired m now (if ltb expiry now then consume id v else v)

unfoldable pub clean : ℕ → ZkpVerifier → ZkpVerifier
clean now v = drop_expired v.expiries now v
