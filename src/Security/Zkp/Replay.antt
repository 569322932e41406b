-- ===== src/Security/Zkp/Replay.antt =====
-- A challenge of engine/security/zkp.go serves for one attempt.
use grimlocker_public.Base.{
  ◌≡◌, refl, ◌∙◌, ℕ, false, List, [], ◌∷◌, none, some, bytes_eq, ltb, All, arith, Bool-cases, inl,
  inr,
}
use grimlocker_public.Base.Dict.{Key, Dict, lookup, lookup-insert, lookup-erase, bytes_eq_iff}
use grimlocker_public.Security.Zkp.Hex.{encode_to_string}
use grimlocker_public.Security.Zkp.{
  ZkpVerifier, not_found, consume, issue_challenge, check_proof, verify_proof, count_live,
  pending_count, drop_expired, clean,
}
use grimlocker_public.Security.Zkp.Lifecycle.{Call, issues, verifies, counts, cleans, step, run}

-- The call does not issue a challenge under the identifier.
abbrev pub IssuesOther : Key → Call → Type 0
IssuesOther id (issues (some raw_id) (some n) now) = bytes_eq (encode_to_string raw_id) id ≡ false
IssuesOther id _ = Unit

abbrev Gone : Key → ZkpVerifier → Type 0
Gone id v = lookup id v.pending ≡ none

consume-Gone : (k id : Key) (v : ZkpVerifier) → Gone id v → Gone id (consume k v)
consume-Gone k id v g = ground (arith, lookup-erase k id v.pending, g)

consumed-Gone : (id : Key) (v : ZkpVerifier) → Gone id (consume id v)
consumed-Gone id v = ground (arith, lookup-erase id id v.pending, bytes_eq_iff id id)

drop_expired-Gone :
    (m : Dict ℕ) (now : ℕ) (id : Key) (v : ZkpVerifier) → Gone id v → Gone id (drop_expired m now v)
drop_expired-Gone [] now id v g = g
drop_expired-Gone ((k, w) ∷ m) now id v g = elim (Bool-cases (ltb w now)) [
  | inl old ↦
      rw (old, drop_expired) (drop_expired-Gone m now id (consume k v) (consume-Gone k id v g))
  | inr fresh ↦ rw (fresh, drop_expired) (drop_expired-Gone m now id v g)
]

count_live-Gone :
    (m : Dict ℕ) (now : ℕ) (id : Key) (v : ZkpVerifier) → Gone id v → Gone id (count_live m now v).1
count_live-Gone [] now id v g = g
count_live-Gone ((k, w) ∷ m) now id v g = elim (Bool-cases (ltb now w)) [
  | inl fresh ↦ rw fresh (count_live-Gone m now id v g)
  | inr old ↦ rw old (count_live-Gone m now id (consume k v) (consume-Gone k id v g))
]

module _ (hash : List ℕ → List ℕ) where
  step-Gone :
      (c : Call) (id : Key) (v : ZkpVerifier)
      → IssuesOther id c
      → Gone id v
      → Gone id (step hash v c)
  unfolding step issue_challenge verify_proof pending_count clean
  step-Gone (issues none n now) id v h g = g
  step-Gone (issues (some raw_id) none now) id v h g = g
  step-Gone (issues (some raw_id) (some n) now) id v h g =
      lookup-insert (encode_to_string raw_id) id n v.pending ∙ rw h g
  step-Gone (verifies k now key proof) id v h g = consume-Gone k id v g
  step-Gone (counts now) id v h g = count_live-Gone v.expiries now id v g
  step-Gone (cleans now) id v h g = drop_expired-Gone v.expiries now id v g

  run-Gone :
      (cs : List Call) (id : Key) (v : ZkpVerifier)
      → All (IssuesOther id) cs
      → Gone id v
      → Gone id (run hash v cs)
  unfolding run
  run-Gone [] id v h g = g
  run-Gone (c ∷ cs) id v h g = run-Gone cs id (step hash v c) h.1 (step-Gone c id v h.0 g)

  -- Once a proof for a challenge has been verified, with whatever result, and after any calls that
  -- do not issue the same identifier again, a further proof for it is not found.
  pub verify_proof-run_again :
      (id : Key) (now later : ℕ) (key proof key' proof' : List ℕ) (cs : List Call) (v : ZkpVerifier)
      → All (IssuesOther id) cs
      → (verify_proof hash id later key' proof'
          (run hash (verify_proof hash id now key proof v).1 cs)).0
        ≡ not_found
  unfolding verify_proof check_proof
  verify_proof-run_again id now later key proof key' proof' cs v h =
      rw (run-Gone cs id (consume id v) h (consumed-Gone id v)) refl
