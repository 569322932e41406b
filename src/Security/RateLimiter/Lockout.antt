-- ===== src/Security/RateLimiter/Lockout.antt =====
-- What a recorded failure or success means for the checks that follow it.
use grimlocker_public.Base.{
  ℕ, ◌+◌, ◌≤◌, ◌<◌, ◌≡◌, ◌≢◌, ◌↔◌, true, List, [], ◌∷◌, length, arith, bytes_eq_refl,
}
use grimlocker_public.Base.Dict.{Key, bytes_eq_iff, lookup-insert, lookup-erase}
use grimlocker_public.Security.RateLimiter.{
  RateLimiter, lockout, entry_or_new, bump, record_failure, check, record_success,
}

module _ (now then' : ℕ) (k : Key) (r : RateLimiter) where
  -- A failure that brings a lockout refuses its subject exactly until the lockout ends, and no
  -- failure changes what another subject is told.
  pub check-record_failure :
      (0 < (record_failure now then' k r).1
        → (t : ℕ)
        → ((check t k (record_failure now then' k r).0).0 ≡ true)
          ↔ (then' + (record_failure now then' k r).1 ≤ t))
      × ((j : Key) → k ≢ j → (t : ℕ) → check t j (record_failure now then' k r).0 ≡ check t j r)
  unfolding record_failure check
  check-record_failure =
      let e = bump now then' (entry_or_new r k) in
      (
        λ locks t. ground (arith, lookup-insert k k e r, bytes_eq_refl k),
        λ j other t. ground (arith, lookup-insert k j e r, bytes_eq_iff k j),
      )

-- Failures of one subject, each at its time (the same for both readings of the clock).
unfoldable pub failures : List ℕ → Key → RateLimiter → RateLimiter
unfolding record_failure
failures [] k r = r
failures (t ∷ ts) k r = failures ts k (record_failure t t k r).0

-- The failures that an entry counts; a subject without one has none.
unfoldable pub counted : Key → RateLimiter → ℕ
counted k r = (entry_or_new r k).attempts

counted-record_failure :
    (t : ℕ) (k : Key) (r : RateLimiter) → counted k (record_failure t t k r).0 ≡ counted k r + 1
unfolding counted record_failure
counted-record_failure t k r =
    ground (arith, lookup-insert k k (bump t t (entry_or_new r k)) r, bytes_eq_refl k)

counted-failures :
    (ts : List ℕ) (k : Key) (r : RateLimiter)
    → counted k (failures ts k r) ≡ counted k r + length ts
unfolding failures
counted-failures [] k r = ground arith
counted-failures (t ∷ ts) k r =
    ground (arith, counted-failures ts k (record_failure t t k r).0, counted-record_failure t k r)

counted-record_success : (k : Key) (r : RateLimiter) → counted k (record_success k r) ≡ 0
unfolding counted record_success
counted-record_success k r = ground (arith, lookup-erase k k r, bytes_eq_refl k)

-- A success forgets the subject's earlier failures and its lockout: it may try again at once, and
-- the failures that follow count from one, each with the lockout of its own number.
pub record_failure-record_success :
    (k : Key) (r : RateLimiter) (ts : List ℕ) (now then' : ℕ)
    → (check now k (record_success k r) ≡ (true, 0))
      × ((record_failure now then' k (failures ts k (record_success k r))).1
          ≡ lockout (length ts + 1))
      × ((record_failure now then' k (failures ts k (record_success k r))).2 ≡ length ts + 1)
unfolding record_failure check record_success counted lockout
record_failure-record_success k r ts now then' =
    let counts = counted-failures ts k (record_success k r) in
    let zero = counted-record_success k r in
    (
      ground (arith, lookup-erase k k r, bytes_eq_refl k),
      ground (arith, counts, zero),
      ground (arith, counts, zero),
    )
