-- ===== src/Security/Lockdown/Progress.antt =====
-- How many failures in a row lead to which lockdown, and what leads out of it.
use grimlocker_public.Base.{
  ℕ, zero, suc, ◌+◌, ◌-◌, ◌≤◌, ◌<◌, ◌≡◌, refl, subst, ◌∙◌, ◌≢◌, ◌↔◌, Bool, List, [], ◌∷◌, arith,
  length, ltb, if◌then◌else◌,
}
use grimlocker_public.Base.Int.{ℤ, pos, ◌+ℤ◌, ◌-ℤ◌}
use grimlocker_public.Security.Lockdown.{
  LockdownManager, LockdownConfig, LockdownState, normal, soft, hard, Call, fails, succeeds,
  asks_state, triggers, create, record_failure, current_state, step, run,
}

-- The lockdown after `n` failures in a row, with threshold `t` and `o` overrides.
abbrev pub level : ℕ → ℕ → ℕ → LockdownState
level t o n = if ltb n t then normal else if ltb n (t + o) then soft else hard

-- One failure after another, at the given times.
abbrev pub failures : List ℕ → List Call
failures [] = []
failures (now ∷ later) = fails now ∷ failures later

-- A manager after `n` failures in a row.
record After (t o n : ℕ) (callback : Bool) (m : LockdownManager) : Type 0 where
  threshold : m.threshold ≡ pos t
  max_overrides : m.max_overrides ≡ pos o
  some_threshold : 1 ≤ t
  some_override : 1 ≤ o
  on_hard : m.on_hard ≡ callback
  level_reached : m.state ≡ level t o n
  failed : n < t → m.failures ≡ pos n
  overridden : t ≤ n → n < t + o → m.overrides_left ≡ pos (t + o - n)
  untouched : n < t → m.overrides_left ≡ pos o
  unwiped : n < t + o → m.wipes ≡ 0
  wiped : t + o ≤ n → m.wipes ≡ (if callback then 1 else 0)

fail-After :
    (t o n : ℕ) (callback : Bool) (m : LockdownManager) (now : ℕ)
    → After t o n callback m
    → After t o (suc n) callback (step m (fails now))
unfolding step ◌+ℤ◌ ◌-ℤ◌
fail-After t o n callback m now a = ground arith

run-After :
    (t o n : ℕ) (callback : Bool) (m : LockdownManager) (nows : List ℕ)
    → After t o n callback m
    → After t o (length nows + n) callback (run m (failures nows))
unfolding run
run-After t o n callback m [] a =
    let e : n ≡ zero + n = omega arith in subst (λ k. After t o k callback m) e a
run-After t o n callback m (now ∷ later) a =
    let e : length later + suc n ≡ suc (length later) + n = omega arith in
    subst (λ k. After t o k callback (run (step m (fails now)) (failures later))) e
      (run-After t o (suc n) callback (step m (fails now)) later
        (fail-After t o n callback m now a))

create-After :
    (t o : ℕ) (minutes : ℤ) (callback : Bool)
    → 1 ≤ t
    → 1 ≤ o
    → After t o 0 callback (
        create (record {
          threshold = pos t;
          max_overrides = pos o;
          lockdown_minutes = minutes;
          on_hard = callback;
        }))
unfolding create
create-After t o minutes callback ht ho = ground arith

-- From a new manager with a positive threshold and a positive number of overrides, failures in a
-- row lead to the soft lockdown exactly when the threshold is reached, and to the hard one exactly
-- after as many more as there are overrides; the callback, if there is one, has then run once.
pub failures_level :
    (t o : ℕ) (minutes : ℤ) (callback : Bool) (nows : List ℕ)
    → 1 ≤ t
    → 1 ≤ o
    → let cfg : LockdownConfig = record {
      threshold = pos t;
      max_overrides = pos o;
      lockdown_minutes = minutes;
      on_hard = callback;
    } in
      let m = run (create cfg) (failures nows) in
      (m.state ≡ level t o (length nows))
      × (m.wipes ≡ (if callback then (if ltb (length nows) (t + o) then 0 else 1) else 0))
failures_level t o minutes callback nows ht ho =
    let a = run-After t o 0 callback _ nows (create-After t o minutes callback ht ho) in
    (a.level_reached ∙ ground arith, ground (arith, a.unwiped, a.wiped))

-- Nothing but RecordSuccess leads out of a hard lockdown, and RecordSuccess does.
pub hard_left_iff :
    (m : LockdownManager) (c : Call) → m.state ≡ hard → ((step m c).state ≢ hard) ↔ (c ≡ succeeds)
unfolding step
hard_left_iff m (fails now) h = (λ n. absurd (n (ground arith)), λ e. cc)
hard_left_iff m succeeds h = (λ n. refl, λ e. ground arith)
hard_left_iff m (asks_state now) h = (λ n. absurd (n (ground arith)), λ e. cc)
hard_left_iff m triggers h = (λ n. absurd (n (ground arith)), λ e. cc)

-- Once the time of a soft lockdown has passed, State answers that there is none, and yet a failure
-- that comes before a call of State still uses up an override and stays in a lockdown.
pub expired_soft_counts :
    (m : LockdownManager) (now : ℕ)
    → m.state ≡ soft
    → m.lockdown_until < now
    → ((current_state now m).1 ≡ normal)
      × ((record_failure now m).1 ≢ normal)
      × ((record_failure now m).0.overrides_left +ℤ pos 1 ≡ m.overrides_left)
unfolding current_state record_failure ◌+ℤ◌ ◌-ℤ◌
expired_soft_counts m now h late = (ground arith, ground arith, ground arith)
