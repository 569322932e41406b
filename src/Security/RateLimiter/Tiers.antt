-- ===== src/Security/RateLimiter/Tiers.antt =====
-- The tiers of lockouts, and what RemainingAttempts says of the next one.
use grimlocker_public.Base.{ℕ, ◌+◌, ◌≤◌, ◌<◌, ◌≡◌, ◌≢◌, ◌⊎◌, ◌↔◌, some, arith}
use grimlocker_public.Base.Dict.{Key, lookup}
use grimlocker_public.Base.Int.{pos}
use grimlocker_public.Security.RateLimiter.{
  Entry, RateLimiter, lockout, until_next_tier, remaining_attempts,
}

-- More failures never bring a shorter lockout, and the first five bring none.
pub lockout_mono : (a b : ℕ) → a ≤ b → (lockout a ≤ lockout b) × ((lockout a ≡ 0) ↔ (a ≤ 5))
unfolding lockout
lockout_mono a b h = (ground arith, (λ e. ground arith, λ e. ground arith))

-- For a subject that is not locked out, RemainingAttempts is exact except at 5, 10 and 15 failures:
-- that many more failures stay in the tier, and one more leaves it, up to the last tier.
pub remaining_exact :
    (now : ℕ) (subject : Key) (r : RateLimiter) (e : Entry)
    → lookup subject r ≡ some e
    → e.locked_until ≤ now
    → e.attempts ≢ 5
    → e.attempts ≢ 10
    → e.attempts ≢ 15
    → e.attempts ≤ 20
    → (n : ℕ) × (remaining_attempts now subject r ≡ pos n)
      × (lockout (e.attempts + n) ≡ lockout e.attempts)
      × (lockout (e.attempts + n + 1) ≢ lockout e.attempts)
unfolding remaining_attempts lockout
remaining_exact now subject r e found free n5 n10 n15 h =
    (until_next_tier e.attempts, ground arith, ground arith, ground arith)

-- For a subject that is not locked out and has 5, 10 or 15 failures, RemainingAttempts promises five
-- more attempts, although the next failure already brings the longer lockout.
pub remaining_overstated :
    (now : ℕ) (subject : Key) (r : RateLimiter) (e : Entry)
    → lookup subject r ≡ some e
    → e.locked_until ≤ now
    → (e.attempts ≡ 5) ⊎ (e.attempts ≡ 10) ⊎ (e.attempts ≡ 15)
    → (remaining_attempts now subject r ≡ pos 5) × (lockout e.attempts < lockout (e.attempts + 1))
unfolding remaining_attempts lockout
remaining_overstated now subject r e found free at = ground arith
