-- ===== src/Security/Zkp/Honest.antt =====
-- A client of engine/security/zkp.go that knows the key, and one that only listens.
use mathlib.Core.List.{Nodup-nil}
use grimlocker_public.Base.{
  ap₂, ◌≡◌, refl, sym, ◌∙◌, ℕ, ◌+◌, ◌≤◌, true, List, [], ◌∷◌, none, some, bytes_eq, ◌==◌, ltb,
  length, if◌then◌else◌, All, arith, Bool-cases, inl, inr,
}
use grimlocker_public.Base.Bits.{xor_cancel}
use grimlocker_public.Base.Dict.{Key, Dict, lookup-insert, bytes_eq_iff}
use grimlocker_public.Base.Dict.Distinct.{Distinct, insert-Distinct, erase-Distinct}
use grimlocker_public.Wire.{IsBytes}
use grimlocker_public.Security.Zkp.Hex.{encode_to_string, decode-encode}
use grimlocker_public.Security.Zkp.{
  ZkpVerifier, accepted, consume, new_verifier, issue_challenge, verify_proof, compute_proof,
  xor_bytes, count_live, pending_count, drop_expired, clean, nonce_ttl, nonce_size, proof_size,
}
use grimlocker_public.Security.Zkp.Lifecycle.{
  Call, issues, verifies, counts, cleans, step, run, Live, Spares, run-Live,
}
use grimlocker_public.Security.Zkp.Accepting.{compute_proof-encode, verify_proof-accepts}

consume-Distinct :
    (k : Key) (v : ZkpVerifier) → Distinct v.expiries → Distinct (consume k v).expiries
consume-Distinct k v d = erase-Distinct k v.expiries d

drop_expired-Distinct :
    (m : Dict ℕ) (now : ℕ) (v : ZkpVerifier)
    → Distinct v.expiries
    → Distinct (drop_expired m now v).expiries
drop_expired-Distinct [] now v d = d
drop_expired-Distinct ((k, w) ∷ m) now v d = elim (Bool-cases (ltb w now)) [
  | inl old ↦
      rw (old, drop_expired) (drop_expired-Distinct m now (consume k v) (consume-Distinct k v d))
  | inr young ↦ rw (young, drop_expired) (drop_expired-Distinct m now v d)
]

count_live-Distinct :
    (m : Dict ℕ) (now : ℕ) (v : ZkpVerifier)
    → Distinct v.expiries
    → Distinct (count_live m now v).1.expiries
count_live-Distinct [] now v d = d
count_live-Distinct ((k, w) ∷ m) now v d = elim (Bool-cases (ltb now w)) [
  | inl young ↦ rw (young, count_live) (count_live-Distinct m now v d)
  | inr old ↦
      rw (old, count_live) (count_live-Distinct m now (consume k v) (consume-Distinct k v d))
]

module _ (hash : List ℕ → List ℕ) where
  step-Distinct :
      (c : Call) (v : ZkpVerifier) → Distinct v.expiries → Distinct (step hash v c).expiries
  unfolding step issue_challenge verify_proof pending_count clean
  step-Distinct (issues none n now) v d = d
  step-Distinct (issues (some raw_id) none now) v d = d
  step-Distinct (issues (some raw_id) (some n) now) v d =
      insert-Distinct (encode_to_string raw_id) (now + nonce_ttl) v.expiries d
  step-Distinct (verifies k now key proof) v d = consume-Distinct k v d
  step-Distinct (counts now) v d = count_live-Distinct v.expiries now v d
  step-Distinct (cleans now) v d = drop_expired-Distinct v.expiries now v d

  run-Distinct :
      (cs : List Call) (v : ZkpVerifier) → Distinct v.expiries → Distinct (run hash v cs).expiries
  unfolding run
  run-Distinct [] v d = d
  run-Distinct (c ∷ cs) v d = run-Distinct cs (step hash v c) (step-Distinct c v d)

  issue_challenge-Live :
      (raw_id nonce : List ℕ) (issued : ℕ) (v : ZkpVerifier)
      → Distinct v.expiries
      → Live
          (encode_to_string raw_id)
          nonce
          (issued + nonce_ttl)
          (issue_challenge (some raw_id) (some nonce) issued v).1
  unfolding issue_challenge
  issue_challenge-Live raw_id nonce issued v d =
      let k = encode_to_string raw_id in
      let same : bytes_eq k k ≡ true = (bytes_eq_iff k k).1 refl in
      record {
        found = lookup-insert k k nonce v.pending ∙ rw same refl;
        dated = lookup-insert k k (issued + nonce_ttl) v.expiries ∙ rw same refl;
        distinct = insert-Distinct k (issued + nonce_ttl) v.expiries d;
      }

  -- For a hash of 32 bytes: after any calls on a new verifier, a challenge with a nonce of 32 bytes,
  -- and any further calls that neither issue nor verify under its identifier and whose walks do
  -- not come after its expiry, ComputeProof makes a proof of the nonce and a key of 32 bytes, and
  -- VerifyProof accepts it for that key up to the expiry.
  pub verify_proof-compute_proof :
      ((bs : List ℕ) → length (hash bs) ≡ proof_size)
      → (before after : List Call) (raw_id nonce key : List ℕ) (issued now : ℕ)
      → length nonce ≡ nonce_size
      → IsBytes nonce
      → length key ≡ proof_size
      → All (Spares (encode_to_string raw_id) (issued + nonce_ttl)) after
      → now ≤ issued + nonce_ttl
      → let v =
          (issue_challenge (some raw_id) (some nonce) issued (run hash new_verifier before)).1 in
        (proof : List ℕ) × compute_proof hash key (encode_to_string nonce) ≡ some proof
        × (verify_proof hash (encode_to_string raw_id) now key proof (run hash v after)).0
          ≡ accepted
  unfolding new_verifier
  verify_proof-compute_proof sum before after raw_id nonce key issued now size bytes len spared h =
      let v = run hash new_verifier before in
      let id = encode_to_string raw_id in
      let live =
        run-Live hash after id nonce (issued + nonce_ttl) _ spared (
          issue_challenge-Live raw_id nonce issued v
            (run-Distinct before new_verifier Nodup-nil)) in
      let made : compute_proof hash key (encode_to_string nonce)
          ≡ some (xor_bytes key (hash nonce)) =
        compute_proof-encode hash key nonce size bytes ∙ rw len refl in
      (
        xor_bytes key (hash nonce),
        made,
        (verify_proof-accepts hash sum id key (xor_bytes key (hash nonce)) nonce _ now _ size bytes
              live).1
            (h, made),
      )

-- XOR with the hash a second time gives the key back.
xor_bytes_twice :
    (ks hs : List ℕ)
    → IsBytes ks
    → IsBytes hs
    → length ks ≡ length hs
    → xor_bytes (xor_bytes ks hs) hs ≡ ks
xor_bytes_twice [] hs b c h = refl
xor_bytes_twice (k ∷ ks) [] b c h = absurd (ground arith)
xor_bytes_twice (k ∷ ks) (x ∷ hs) b c h =
    ap₂ ◌∷◌ (xor_cancel k x b.0 c.0) (xor_bytes_twice ks hs b.1 c.1 (ground arith))

-- For a hash of 32 bytes: whoever sees the challenge and the proof that ComputeProof makes of it
-- has the derived key, by the proof's own XOR with the hash of the decoded nonce.
pub compute_proof_reveals :
    (hash : List ℕ → List ℕ)
    → ((bs : List ℕ) → length (hash bs) ≡ proof_size)
    → ((bs : List ℕ) → IsBytes (hash bs))
    → (key nonce proof : List ℕ) → IsBytes key
    → IsBytes nonce
    → compute_proof hash key (encode_to_string nonce) ≡ some proof
    → xor_bytes proof (hash nonce) ≡ key
unfolding compute_proof
compute_proof_reveals hash sum sum_bytes key nonce proof k n e =
    let h = hash nonce in
    let made : compute_proof hash key (encode_to_string nonce) ≡ (
        if length nonce == nonce_size
        then if length key == proof_size then some (xor_bytes key h) else none
        else none) =
      rw (decode-encode nonce n, compute_proof) refl in
    let made_of : length key ≡ proof_size × xor_bytes key h ≡ proof =
      ground (arith, sym made ∙ e) in
    rw (← made_of.1) (xor_bytes_twice key h k (sum_bytes nonce) (made_of.0 ∙ sym (sum nonce)))
