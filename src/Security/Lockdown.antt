-- ===== src/Security/Lockdown.antt =====
-- engine/security/lockdown.go. The mutex makes every method one step. `now` is what time.Now()
-- returns, in nanoseconds after the zero time; `wipes` counts the calls of the OnHard callback.
pub mod Progress
pub mod Invariant
use grimlocker_public.Base.{
  List, [], ◌∷◌, ℕ, suc, ◌+◌, ◌*◌, Bool, true, false, ◌&&◌, ltb, if◌then◌else◌,
}
use grimlocker_public.Base.Int.{ℤ, pos, ◌+ℤ◌, ◌-ℤ◌, leb_ℤ, pos_part}

pub data LockdownState : Type 0 where
  normal soft hard : LockdownState

pub record LockdownManager : Type 0 where
  pub failures : ℤ
  pub threshold : ℤ
  pub overrides_left : ℤ
  pub max_overrides : ℤ
  pub lockdown_until : ℕ
  pub lockdown_minutes : ℤ
  pub state : LockdownState
  pub on_hard : Bool
  pub wipes : ℕ

pub record LockdownConfig : Type 0 where
  pub threshold : ℤ
  pub max_overrides : ℤ
  pub lockdown_minutes : ℤ
  pub on_hard : Bool

-- The errors that RecordFailure returns, with the number of attempts that each reports.
pub data AuthError : Type 0 where
  auth_lockdown : ℤ → AuthError
  auth_invalid : ℤ → AuthError

abbrev pub or_default : ℤ → ℤ → ℤ
or_default given default = if leb_ℤ given (pos 0) then default else given

-- NewLockdownManager
unfoldable pub create : LockdownConfig → LockdownManager
create cfg = record {
  failures = pos 0;
  threshold = or_default cfg.threshold (pos 3);
  overrides_left = or_default cfg.max_overrides (pos 4);
  max_overrides = or_default cfg.max_overrides (pos 4);
  lockdown_until = 0;
  lockdown_minutes = or_default cfg.lockdown_minutes (pos 200);
  state = normal;
  on_hard = cfg.on_hard;
  wipes = 0;
}

-- The callback, if there is one.
abbrev call_on_hard : LockdownManager → LockdownManager
call_on_hard m = record m { wipes = if m.on_hard then suc m.wipes else m.wipes }

abbrev pub minute : ℕ
minute = 60_000_000_000

unfoldable pub fail_soft : LockdownManager → LockdownManager × LockdownState × AuthError
unfolding ◌-ℤ◌
fail_soft m =
    let m' = record m { overrides_left = m.overrides_left -ℤ pos 1 } in
    if leb_ℤ m'.overrides_left (pos 0)
    then (call_on_hard (record m' { state = hard }), hard, auth_lockdown (pos 0))
    else (m', soft, auth_lockdown m'.overrides_left)

unfoldable pub fail_normal : ℕ → LockdownManager → LockdownManager × LockdownState × AuthError
unfolding ◌+ℤ◌ ◌-ℤ◌
fail_normal now m =
    let m' = record m { failures = m.failures +ℤ pos 1 } in
    if leb_ℤ m'.threshold m'.failures
    then (
      record m' { state = soft; lockdown_until = now + pos_part m'.lockdown_minutes * minute },
      soft,
      auth_lockdown (pos 0),
    )
    else (m', normal, auth_invalid (m'.threshold -ℤ m'.failures))

unfoldable pub record_failure : ℕ → LockdownManager → LockdownManager × LockdownState × AuthError
unfolding fail_soft fail_normal
record_failure now m = elim m.state [
  | hard ↦ (m, hard, auth_lockdown (pos 0))
  | soft ↦ fail_soft m
  | normal ↦ fail_normal now m
]

unfoldable pub record_success : LockdownManager → LockdownManager
record_success m = record m {
  failures = pos 0;
  overrides_left = m.max_overrides;
  state = normal;
  lockdown_until = 0;
}

abbrev is_soft : LockdownState → Bool
is_soft soft = true
is_soft _ = false

-- The method State, which expires a soft lockdown.
unfoldable pub current_state : ℕ → LockdownManager → LockdownManager × LockdownState
current_state now m =
    let m' =
      if is_soft m.state && ltb m.lockdown_until now
      then record m { state = normal; failures = pos 0; overrides_left = m.max_overrides }
      else m in
    (m', m'.state)

unfoldable pub remaining_attempts : LockdownManager → ℤ
unfolding ◌-ℤ◌
remaining_attempts m = elim m.state [
  | soft ↦ m.overrides_left
  | hard ↦ pos 0
  | normal ↦ m.threshold -ℤ m.failures
]

unfoldable pub trigger_hard : LockdownManager → LockdownManager
trigger_hard m = call_on_hard (record m { state = hard })

-- The calls that change a manager; RemainingAttempts and LockdownUntil only read it.
pub data Call : Type 0 where
  fails : ℕ → Call
  succeeds : Call
  asks_state : ℕ → Call
  triggers : Call

unfoldable pub step : LockdownManager → Call → LockdownManager
unfolding record_failure record_success current_state trigger_hard
step m (fails now) = (record_failure now m).0
step m succeeds = record_success m
step m (asks_state now) = (current_state now m).0
step m triggers = trigger_hard m

unfoldable pub run : LockdownManager → List Call → LockdownManager
run m [] = m
run m (c ∷ cs) = run (step m c) cs
