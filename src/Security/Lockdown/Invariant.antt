-- ===== src/Security/Lockdown/Invariant.antt =====
-- The counters of the lockdown manager stay in range, whatever is called.
use grimlocker_public.Base.{◌≡◌, ◌↔◌, List, [], ◌∷◌, arith}
use grimlocker_public.Base.Int.{pos, ◌+ℤ◌, ◌≤ℤ◌}
use grimlocker_public.Security.Lockdown.{
  LockdownManager, LockdownConfig, normal, soft, hard, Call, fails, succeeds, asks_state, triggers,
  create, remaining_attempts, step, run,
}

pub record IsValid (m : LockdownManager) : Type 0 where
  pub threshold_positive : pos 1 ≤ℤ m.threshold
  pub max_positive : pos 1 ≤ℤ m.max_overrides
  pub counted : pos 0 ≤ℤ m.failures
  pub below_threshold : m.state ≡ normal → m.failures +ℤ pos 1 ≤ℤ m.threshold
  pub untouched : m.state ≡ normal → m.overrides_left ≡ m.max_overrides
  pub overrides_positive : m.state ≡ soft → pos 1 ≤ℤ m.overrides_left
  pub overrides_bounded : m.state ≡ soft → m.overrides_left ≤ℤ m.max_overrides

create-IsValid : (cfg : LockdownConfig) → IsValid (create cfg)
unfolding create ◌+ℤ◌
create-IsValid cfg = ground arith

step-IsValid : (m : LockdownManager) (c : Call) → IsValid m → IsValid (step m c)
unfolding step ◌+ℤ◌
step-IsValid m (fails now) v = ground arith
step-IsValid m succeeds v = ground arith
step-IsValid m (asks_state now) v = ground arith
step-IsValid m triggers v = ground arith

run-IsValid : (m : LockdownManager) (cs : List Call) → IsValid m → IsValid (run m cs)
unfolding run
run-IsValid m [] v = v
run-IsValid m (c ∷ cs) v = run-IsValid (step m c) cs (step-IsValid m c v)

-- Whatever the configuration and the calls, the failures stay below the threshold until the soft
-- lockdown, and the overrides stay between 1 and their maximum until the hard one.
pub run-create-IsValid : (cfg : LockdownConfig) (cs : List Call) → IsValid (run (create cfg) cs)
run-create-IsValid cfg cs = run-IsValid (create cfg) cs (create-IsValid cfg)

remaining_of_valid :
    (m : LockdownManager)
    → IsValid m
    → (pos 0 ≤ℤ remaining_attempts m) × ((remaining_attempts m ≡ pos 0) ↔ (m.state ≡ hard))
unfolding remaining_attempts ◌+ℤ◌
remaining_of_valid m v = (ground arith, (λ e. ground arith, λ h. ground arith))

-- After any calls, RemainingAttempts reports no attempt exactly in the hard lockdown, and is never
-- negative.
pub remaining_attempts_iff :
    (cfg : LockdownConfig) (cs : List Call)
    → let m = run (create cfg) cs in
      (pos 0 ≤ℤ remaining_attempts m) × ((remaining_attempts m ≡ pos 0) ↔ (m.state ≡ hard))
remaining_attempts_iff cfg cs = remaining_of_valid (run (create cfg) cs) (run-create-IsValid cfg cs)
