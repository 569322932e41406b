-- ===== src/Security/KeyTests.antt =====
-- Runs of the proof verifier and the key store, and the theorems at them.
use mathlib.Core.List.Perm
use grimlocker_public.Base.{
  ◌≡◌, refl, ℕ, zero, suc, ◌≤◌, ◌<◌, ◌↔◌, List, [], ◌∷◌, none, some, true, length, replicate,
  get_or, arith,
}
use mathlib.Core.List.{Nodup-nil}
use grimlocker_public.Base.Dict.{Key, lookup}
use grimlocker_public.Base.Dict.Distinct.{insert-Distinct}
use grimlocker_public.Gql.Opcodes.{codes}
use grimlocker_public.Wire.{IsBytes}
use grimlocker_public.Security.Zkp.{
  ZkpVerifier, accepted, not_found, new_verifier, issue_challenge, verify_proof, compute_proof,
  xor_bytes,
}
use grimlocker_public.Security.Zkp.Hex.{encode_to_string, decode_string}
use grimlocker_public.Security.Zkp.Lifecycle.{Call, verifies, counts, cleans, run, Live}
use grimlocker_public.Security.Zkp.Accepting.{verify_proof-accepts}
use grimlocker_public.Security.Zkp.Honest.{verify_proof-compute_proof, compute_proof_reveals}
use grimlocker_public.Security.Zkp.Replay.{verify_proof-run_again}
use grimlocker_public.Security.MvkStore
use grimlocker_public.Security.MvkStore.{create, revoke_all, stores, revokes, revokes_all}
use grimlocker_public.Security.MvkStore.Revocation.{IsWiped, AreFair, revoke_all-run}

-- A hash that is always 32 times 200.
abbrev sum : List ℕ → List ℕ
sum bs = replicate 32 200

sum-length : (bs : List ℕ) → length (sum bs) ≡ 32
sum-length bs = refl

replicate-IsBytes : (n b : ℕ) → b < 256 → IsBytes (replicate n b)
replicate-IsBytes zero b h = tt
replicate-IsBytes (suc n) b h = (h, replicate-IsBytes n b h)

abbrev nonce : List ℕ
nonce = replicate 32 5

abbrev key : List ℕ
key = replicate 32 9

-- 9 xor 200.
abbrev proof : List ℕ
proof = replicate 32 193

abbrev one_challenge : ZkpVerifier
one_challenge = record { pending = (codes "c", nonce) ∷ []; expiries = (codes "c", 100) ∷ [] }

one_challenge-Live : Live (codes "c") nonce 100 one_challenge
one_challenge-Live = record {
  found = refl;
  dated = refl;
  distinct = insert-Distinct {V = ℕ} (codes "c") 100 [] Nodup-nil;
}

verify_proof-accepts_example :
    ((verify_proof sum (codes "c") 60 key proof one_challenge).0 ≡ accepted)
    ↔ (60 ≤ 100 × compute_proof sum key (encode_to_string nonce) ≡ some proof)
verify_proof-accepts_example =
    verify_proof-accepts sum sum-length (codes "c") key proof nonce 100 60 one_challenge refl
      (replicate-IsBytes 32 5 (omega arith)) one_challenge-Live

abbrev between : List Call
between = counts 30 ∷ verifies (codes "d") 31 key proof ∷ cleans 32 ∷ []

verify_proof-compute_proof_example :
    let v =
      (issue_challenge (some (1 ∷ [])) (some nonce) 20 (run sum new_verifier (cleans 10 ∷ []))).1 in
    (p : List ℕ) × compute_proof sum key (encode_to_string nonce) ≡ some p
    × (verify_proof sum (encode_to_string (1 ∷ [])) 40 key p (run sum v between)).0 ≡ accepted
unfolding encode_to_string
verify_proof-compute_proof_example =
    verify_proof-compute_proof sum sum-length (cleans 10 ∷ []) between (1 ∷ []) nonce key 20 40 refl
      (replicate-IsBytes 32 5 (omega arith)) refl (omega arith, (refl, (omega arith, tt)))
      (omega arith)

verify_proof-run_again_example :
    (verify_proof sum
      (codes "c")
      60
      key
      proof
      (run sum (verify_proof sum (codes "c") 50 key proof one_challenge).1 between)).0
    ≡ not_found
verify_proof-run_again_example =
    verify_proof-run_again sum (codes "c") 50 60 key proof key proof between one_challenge
      (tt, (tt, (tt, tt)))

made : compute_proof sum key (encode_to_string nonce) ≡ some proof
unfolding compute_proof encode_to_string decode_string
made = refl

compute_proof_reveals_example : xor_bytes proof (sum nonce) ≡ key
compute_proof_reveals_example =
    compute_proof_reveals sum sum-length (λ bs. replicate-IsBytes 32 200 (omega arith)) key nonce
      proof (replicate-IsBytes 32 9 (omega arith)) (replicate-IsBytes 32 5 (omega arith)) made

-- Two keys are stored, and one of them is revoked.
abbrev vault : List MvkStore.Call
vault = stores true (codes "a") key ∷ stores true (codes "b") nonce ∷ revokes (codes "a") ∷ []

vault-AreFair : AreFair create vault
unfolding AreFair create MvkStore.step MvkStore.store
vault-AreFair = (refl, (refl, (tt, tt)))

revoke_all-run_example :
    ((a : ℕ) → IsWiped (get_or (revoke_all (λ m. m) (MvkStore.run create vault)).heap a []))
    × ((k : Key) → lookup k (revoke_all (λ m. m) (MvkStore.run create vault)).handles ≡ none)
revoke_all-run_example = revoke_all-run vault (λ m. m) vault-AreFair (Perm.refl _)
