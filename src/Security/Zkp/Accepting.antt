-- ===== src/Security/Zkp/Accepting.antt =====
-- Which proofs VerifyProof of engine/security/zkp.go accepts. `hash` gives 32 bytes, as a BLAKE2b-256 sum does.
use grimlocker_public.Base.{
  ◌≡◌, refl, ap, ℕ, suc, ◌≤◌, List, [], ◌∷◌, none, some, ◌==◌, length, if◌then◌else◌, arith, ◌↔◌,
}
use grimlocker_public.Base.Dict.{bytes_eq_iff}
use grimlocker_public.Wire.{IsBytes}
use grimlocker_public.Security.Zkp.Hex.{encode_to_string, decode-encode}
use grimlocker_public.Security.Zkp.{
  ZkpVerifier, accepted, check_proof, verify_proof, compute_proof, xor_bytes, nonce_size,
  proof_size,
}
use grimlocker_public.Security.Zkp.Lifecycle.{Live}

pub length-xor_bytes :
    (ks hs : List ℕ) → length ks ≡ length hs → length (xor_bytes ks hs) ≡ length ks
length-xor_bytes [] hs h = refl
length-xor_bytes (k ∷ ks) [] h = absurd (ground arith)
length-xor_bytes (k ∷ ks) (x ∷ hs) h = ap suc (length-xor_bytes ks hs (ground arith))

module _ (hash : List ℕ → List ℕ) where
  pub compute_proof-encode :
      (key nonce : List ℕ)
      → length nonce ≡ nonce_size
      → IsBytes nonce
      → compute_proof hash key (encode_to_string nonce)
        ≡ (if length key == proof_size then some (xor_bytes key (hash nonce)) else none)
  unfolding compute_proof
  compute_proof-encode key nonce size bytes =
      rw (decode-encode nonce bytes, compute_proof, size) refl

  check_proof-accepts :
      (key proof nonce : List ℕ) (expiry now : ℕ)
      → (check_proof hash (some nonce) (some expiry) now key proof ≡ accepted) ↔ (
          now ≤ expiry
          × length key ≡ proof_size
          × length proof ≡ proof_size
          × xor_bytes key (hash nonce) ≡ proof)
  unfolding check_proof
  check_proof-accepts key proof nonce expiry now =
      ground (arith, bytes_eq_iff (xor_bytes key (hash nonce)) proof)

  -- A verifier that has the challenge with a nonce of 32 bytes, for a hash of 32 bytes: VerifyProof
  -- accepts a proof exactly when the challenge has not expired and the proof is what ComputeProof
  -- makes of the key and of the nonce that the client was sent.
  pub verify_proof-accepts :
      ((bs : List ℕ) → length (hash bs) ≡ proof_size)
      → (id key proof nonce : List ℕ) (expiry now : ℕ) (v : ZkpVerifier) → length nonce ≡ nonce_size
      → IsBytes nonce
      → Live id nonce expiry v
      → ((verify_proof hash id now key proof v).0 ≡ accepted)
        ↔ (now ≤ expiry × compute_proof hash key (encode_to_string nonce) ≡ some proof)
  unfolding verify_proof
  verify_proof-accepts sum id key proof nonce expiry now v size bytes live =
      let made = compute_proof-encode key nonce size bytes in
      let checks = check_proof-accepts key proof nonce expiry now in
      rw (live.found, live.dated, made)
        (ground (arith, checks, length-xor_bytes key (hash nonce), sum nonce))
