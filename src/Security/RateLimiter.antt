-- ===== src/Security/RateLimiter.antt =====
-- engine/security/rate_limiter.go. The mutex makes every method one step. Times and durations are
-- nanoseconds, and 0 is the zero time; each result of time.Now() is an argument.
pub mod Tiers
pub mod Lockout
use grimlocker_public.Base.{
  ℕ, suc, ◌+◌, ◌-◌, ◌*◌, Bool, true, false, List, [], ◌∷◌, Option, none, some, ltb, leb,
  if◌then◌else◌,
}
use grimlocker_public.Base.Dict.{Key, Dict, lookup, insert, erase}
use grimlocker_public.Base.Int.{ℤ, pos, negsuc}

pub record Entry : Type 0 where
  pub attempts : ℕ
  pub locked_until : ℕ
  pub last_attempt : ℕ

-- RateLimiter.entries
abbrev pub RateLimiter : Type 0
RateLimiter = Dict Entry

abbrev pub create : RateLimiter
create = []

abbrev pub second : ℕ
second = 1_000_000_000

-- The lockout that a number of failures brings: the `switch` of RecordFailure.
unfoldable pub lockout : ℕ → ℕ
lockout attempts =
    if leb 21 attempts
    then 24 * 3600 * second
    else if leb 16 attempts
    then 3600 * second
    else if leb 11 attempts
    then 600 * second
    else if leb 6 attempts
    then 60 * second
    else 0

abbrev entry_or_new : RateLimiter → Key → Entry
entry_or_new r subject = elim (lookup subject r) [
  | some e ↦ e
  | none ↦ record { attempts = 0; locked_until = 0; last_attempt = 0 }
]

-- The entry after a failure that is recorded at `now` and locks at `then'`.
abbrev bump : ℕ → ℕ → Entry → Entry
bump now then' e =
    let attempts = e.attempts + 1 in
    let duration = lockout attempts in
    record {
      attempts = attempts;
      locked_until = if ltb 0 duration then then' + duration else e.locked_until;
      last_attempt = now;
    }

-- RecordFailure: the new limiter, the lockout, and the failures so far.
unfoldable pub record_failure : ℕ → ℕ → Key → RateLimiter → RateLimiter × ℕ × ℕ
record_failure now then' subject r =
    let e = bump now then' (entry_or_new r subject) in
    (insert subject e r, lockout e.attempts, e.attempts)

unfoldable pub check : ℕ → Key → RateLimiter → Bool × ℕ
check now subject r = elim (lookup subject r) [
  | none ↦ (true, 0)
  | some e ↦ if ltb now e.locked_until then (false, e.locked_until) else (true, 0)
]

unfoldable pub record_success : Key → RateLimiter → RateLimiter
record_success subject r = elim (lookup subject r) [ none ↦ r | some _ ↦ erase subject r ]

-- The `switch` of RemainingAttempts.
unfoldable pub until_next_tier : ℕ → ℕ
until_next_tier attempts =
    if ltb attempts 5
    then 5 - attempts
    else if ltb attempts 10
    then 10 - attempts
    else if ltb attempts 15
    then 15 - attempts
    else if ltb attempts 20
    then 20 - attempts
    else 0

unfoldable pub remaining_attempts : ℕ → Key → RateLimiter → ℤ
unfolding until_next_tier
remaining_attempts now subject r = elim (lookup subject r) [
  | none ↦ pos 5
  | some e ↦ if ltb now e.locked_until then negsuc 0 else pos (until_next_tier e.attempts)
]

unfoldable pub lockout_status : ℕ → Key → RateLimiter → Bool × ℕ
lockout_status now subject r = elim (lookup subject r) [
  | none ↦ (false, 0)
  | some e ↦ if ltb now e.locked_until then (true, e.locked_until - now) else (false, 0)
]
