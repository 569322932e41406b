-- ===== src/Security/Tests.antt =====
-- Runs of the lockdown manager and the rate limiter, and the theorems at them.
use grimlocker_public.Base.{
  ℕ, ◌+◌, ◌≤◌, ◌<◌, ◌≡◌, refl, ◌↔◌, ◌≢◌, true, false, List, [], ◌∷◌, arith,
}
use grimlocker_public.Base.Dict.{Key}
use grimlocker_public.Base.Int.{pos, ◌+ℤ◌, ◌-ℤ◌}
use grimlocker_public.Security.Lockdown
use grimlocker_public.Security.Lockdown.{
  LockdownManager, LockdownConfig, normal, soft, hard, Call, fails, succeeds, asks_state, triggers,
  create, fail_soft, fail_normal, current_state, trigger_hard, step, run, auth_lockdown,
}
use grimlocker_public.Security.Lockdown.Invariant.{IsValid, run-create-IsValid}
use grimlocker_public.Security.Lockdown.Progress.{level, failures_level, hard_left_iff}
use grimlocker_public.Security.RateLimiter.{Entry, lockout, record_failure, check, record_success}
use grimlocker_public.Security.RateLimiter.Lockout.{
  failures, check-record_failure, record_failure-record_success,
}

abbrev config : LockdownConfig
config = record {
  threshold = pos 2;
  max_overrides = pos 1;
  lockdown_minutes = pos 1;
  on_hard = true;
}

-- Two failures lock softly; a third one, although a minute has passed, locks for good.
abbrev attack : List Call
attack = fails 5 ∷ fails 6 ∷ fails 70_000_000_000 ∷ []

attack_locks : (run (create config) attack).state ≡ hard
unfolding create run step Lockdown.record_failure fail_soft fail_normal ◌+ℤ◌ ◌-ℤ◌
attack_locks = refl

run-create-IsValid_example : IsValid (run (create config) attack)
run-create-IsValid_example = run-create-IsValid config attack

failures_level_example :
    ((run (create config) attack).state ≡ level 2 1 3) × ((run (create config) attack).wipes ≡ 1)
failures_level_example =
    failures_level 2 1 (pos 1) true (5 ∷ 6 ∷ 70_000_000_000 ∷ []) (ground arith) (ground arith)

hard_left_iff_example :
    ((step (run (create config) attack) succeeds).state ≢ hard) ↔ (succeeds ≡ succeeds)
hard_left_iff_example = hard_left_iff (run (create config) attack) succeeds attack_locks

abbrev soft_manager : LockdownManager
soft_manager = record {
  failures = pos 3;
  threshold = pos 3;
  overrides_left = pos 4;
  max_overrides = pos 4;
  lockdown_until = 100;
  lockdown_minutes = pos 200;
  state = soft;
  on_hard = false;
  wipes = 0;
}

abbrev bob : Key
bob = 98 ∷ 111 ∷ 98 ∷ []

abbrev seven_failures : Entry
seven_failures = record { attempts = 7; locked_until = 90; last_attempt = 30 }

abbrev five_failures : Entry
five_failures = record { attempts = 5; locked_until = 0; last_attempt = 30 }

check-record_failure_example :
    (0 < (record_failure 95 96 bob ((bob, five_failures) ∷ [])).1
      → (t : ℕ)
      → ((check t bob (record_failure 95 96 bob ((bob, five_failures) ∷ [])).0).0 ≡ true)
        ↔ (96 + (record_failure 95 96 bob ((bob, five_failures) ∷ [])).1 ≤ t))
    × ((j : Key)
        → bob ≢ j
        → (t : ℕ)
        → check t j (record_failure 95 96 bob ((bob, five_failures) ∷ [])).0
          ≡ check t j ((bob, five_failures) ∷ []))
check-record_failure_example = check-record_failure 95 96 bob ((bob, five_failures) ∷ [])

record_failure-record_success_example :
    (check 40 bob (record_success bob ((bob, seven_failures) ∷ [])) ≡ (true, 0))
    × ((record_failure 40 41 bob
          (failures (38 ∷ 39 ∷ []) bob (record_success bob ((bob, seven_failures) ∷ [])))).1
        ≡ lockout 3)
    × ((record_failure 40 41 bob
          (failures (38 ∷ 39 ∷ []) bob (record_success bob ((bob, seven_failures) ∷ [])))).2
        ≡ 3)
record_failure-record_success_example =
    record_failure-record_success bob ((bob, seven_failures) ∷ []) (38 ∷ 39 ∷ []) 40 41
