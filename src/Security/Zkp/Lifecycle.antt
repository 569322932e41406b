-- ===== src/Security/Zkp/Lifecycle.antt =====
-- The calls of a verifier of engine/security/zkp.go, and what each does to the other challenges.
use grimlocker_public.Base.{
  ◌≡◌, refl, ◌∙◌, ℕ, suc, ◌+◌, ◌≤◌, ◌<◌, false, List, [], ◌∷◌, Option, none, some, bytes_eq, ltb,
  All, arith, Bool-cases, inl, inr,
}
use grimlocker_public.Base.Dict.{Key, Dict, lookup, lookup-insert, lookup-erase, bytes_eq_iff}
use grimlocker_public.Base.Dict.Distinct.{
  Distinct, insert-Distinct, erase-Distinct, head-absent, tail-Distinct,
}
use grimlocker_public.Security.Zkp.Hex.{encode_to_string}
use grimlocker_public.Security.Zkp.{
  ZkpVerifier, consume, issue_challenge, verify_proof, count_live, pending_count, drop_expired,
  clean, nonce_ttl,
}

-- The calls, each with the clock that it reads.
pub data Call : Type 0 where
  issues : Option (List ℕ) → Option (List ℕ) → ℕ → Call
  verifies : Key → ℕ → List ℕ → List ℕ → Call
  counts : ℕ → Call
  cleans : ℕ → Call

module _ (hash : List ℕ → List ℕ) where
  unfoldable pub step : ZkpVerifier → Call → ZkpVerifier
  step v (issues raw_id nonce now) = (issue_challenge raw_id nonce now v).1
  step v (verifies id now key proof) = (verify_proof hash id now key proof v).1
  step v (counts now) = (pending_count now v).1
  step v (cleans now) = clean now v

  unfoldable pub run : ZkpVerifier → List Call → ZkpVerifier
  run v [] = v
  run v (c ∷ cs) = run (step v c) cs

-- The challenge is pending until its expiry.
pub record Live (id : Key) (nonce : List ℕ) (expiry : ℕ) (v : ZkpVerifier) : Type 0 where
  pub found : lookup id v.pending ≡ some nonce
  pub dated : lookup id v.expiries ≡ some expiry
  pub distinct : Distinct v.expiries

-- The call leaves the challenge alone: it neither issues nor verifies under that identifier, and
-- no walk comes after the expiry.
abbrev pub Spares : Key → ℕ → Call → Type 0
Spares id expiry (issues none _ now) = Unit
Spares id expiry (issues (some raw_id) none now) = Unit
Spares id expiry (issues (some raw_id) (some n) now) = bytes_eq (encode_to_string raw_id) id ≡ false
Spares id expiry (verifies k now key proof) = bytes_eq k id ≡ false
Spares id expiry (counts now) = now < expiry
Spares id expiry (cleans now) = now ≤ expiry

consume-Live :
    (k id : Key) (nonce : List ℕ) (t : ℕ) (v : ZkpVerifier)
    → bytes_eq k id ≡ false
    → Live id nonce t v
    → Live id nonce t (consume k v)
consume-Live k id nonce t v other l = record {
  found = ground (arith, lookup-erase k id v.pending, l.found);
  dated = ground (arith, lookup-erase k id v.expiries, l.dated);
  distinct = erase-Distinct k v.expiries l.distinct;
}

-- The entries of the challenge are not before the time.
abbrev Late : Key → ℕ → Key × ℕ → Type 0
Late id now e = e.0 ≡ id → now ≤ e.1

entries-Late :
    (id : Key) (now : ℕ) (m : Dict ℕ)
    → Distinct m
    → ((t : ℕ) → lookup id m ≡ some t → now ≤ t)
    → All (Late id now) m
entries-Late id now [] d h = tt
entries-Late id now ((k, w) ∷ m) d h = (
  λ e. h w (rw ((bytes_eq_iff k id).1 e) refl),
  entries-Late id now m (tail-Distinct k w m d)
      (λ t found. h t (ground (arith, head-absent k w m d, bytes_eq_iff k id))),
)

drop_expired-Live :
    (m : Dict ℕ) (id : Key) (nonce : List ℕ) (t now : ℕ) (v : ZkpVerifier)
    → All (Late id now) m
    → Live id nonce t v
    → Live id nonce t (drop_expired m now v)
drop_expired-Live [] id nonce t now v h l = l
drop_expired-Live ((k, w) ∷ m) id nonce t now v h l = elim (Bool-cases (ltb w now)) [
  | inl gone ↦ rw gone (
      drop_expired-Live m id nonce t now (consume k v) h.1
        (consume-Live k id nonce t v (ground (arith, h.0, bytes_eq_iff k id)) l))
  | inr stays ↦ rw stays (drop_expired-Live m id nonce t now v h.1 l)
]

count_live-Live :
    (m : Dict ℕ) (id : Key) (nonce : List ℕ) (t now : ℕ) (v : ZkpVerifier)
    → All (Late id (suc now)) m
    → Live id nonce t v
    → Live id nonce t (count_live m now v).1
count_live-Live [] id nonce t now v h l = l
count_live-Live ((k, w) ∷ m) id nonce t now v h l = elim (Bool-cases (ltb now w)) [
  | inl stays ↦ rw stays (count_live-Live m id nonce t now v h.1 l)
  | inr gone ↦ rw gone (
      count_live-Live m id nonce t now (consume k v) h.1
        (consume-Live k id nonce t v (ground (arith, h.0, bytes_eq_iff k id)) l))
]

issue-Live :
    (raw_id n : List ℕ) (now : ℕ) (id : Key) (nonce : List ℕ) (t : ℕ) (v : ZkpVerifier)
    → bytes_eq (encode_to_string raw_id) id ≡ false
    → Live id nonce t v
    → Live id nonce t (issue_challenge (some raw_id) (some n) now v).1
unfolding issue_challenge
issue-Live raw_id n now id nonce t v other l =
    let k = encode_to_string raw_id in
    record {
      found = lookup-insert k id n v.pending ∙ rw other l.found;
      dated = lookup-insert k id (now + nonce_ttl) v.expiries ∙ rw other l.dated;
      distinct = insert-Distinct k (now + nonce_ttl) v.expiries l.distinct;
    }

module _ (hash : List ℕ → List ℕ) where
  step-Live :
      (c : Call) (id : Key) (nonce : List ℕ) (t : ℕ) (v : ZkpVerifier)
      → Spares id t c
      → Live id nonce t v
      → Live id nonce t (step hash v c)
  unfolding step issue_challenge verify_proof pending_count clean
  step-Live (issues none n now) id nonce t v h l = l
  step-Live (issues (some raw_id) none now) id nonce t v h l = l
  step-Live (issues (some raw_id) (some n) now) id nonce t v h l =
      issue-Live raw_id n now id nonce t v h l
  step-Live (verifies k now key proof) id nonce t v h l = consume-Live k id nonce t v h l
  step-Live (counts now) id nonce t v h l =
      count_live-Live v.expiries id nonce t now v
        (entries-Late id (suc now) v.expiries l.distinct (λ s e. ground (arith, l.dated))) l
  step-Live (cleans now) id nonce t v h l =
      drop_expired-Live v.expiries id nonce t now v
        (entries-Late id now v.expiries l.distinct (λ s e. ground (arith, l.dated))) l

  pub run-Live :
      (cs : List Call) (id : Key) (nonce : List ℕ) (t : ℕ) (v : ZkpVerifier)
      → All (Spares id t) cs
      → Live id nonce t v
      → Live id nonce t (run hash v cs)
  unfolding run
  run-Live [] id nonce t v h l = l
  run-Live (c ∷ cs) id nonce t v h l =
      run-Live cs id nonce t (step hash v c) h.1 (step-Live c id nonce t v h.0 l)
