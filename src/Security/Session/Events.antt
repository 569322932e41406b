-- ===== src/Security/Session/Events.antt =====
-- What the events of engine/security/session.go tell about the session.
use grimlocker_public.Base.{
  ◌≡◌, refl, ap, sym, ◌∙◌, ℕ, Bool, true, false, List, [], ◌∷◌, ◌++◌, Option, none, some, All,
  arith, leb, Bool-cases, inl, inr, ◌⊎◌, subst,
}
use grimlocker_public.Security.Session.{
  Timer, stopped, fires_at, Event, auth_ready, auth_logout, SessionContext, create,
  set_auto_lock_minutes, reset_activity, set_dispatcher, unlock, lock, tick, Call, sets_minutes,
  resets, sets_dispatcher, unlocks, locks, time_passes, step, run,
}

-- A subscriber that knows whether the vault is unlocked, and hears an event: a logout of a locked vault
-- makes no sense, which is `none`.
abbrev pub hear : Option Bool → Event → Option Bool
hear none e = none
hear (some unlocked) (auth_ready t) = some true
hear (some true) auth_logout = some false
hear (some false) auth_logout = none

abbrev pub hear_all : Option Bool → List Event → Option Bool
hear_all known [] = known
hear_all known (e ∷ es) = hear_all (hear known e) es

pub hear_all-append :
    (known : Option Bool) (es : List Event) (e : Event)
    → hear_all known (es ++ e ∷ []) ≡ hear (hear_all known es) e
hear_all-append known [] e = refl
hear_all-append known (d ∷ es) e = hear_all-append (hear known d) es e

-- Calls that leave the dispatcher as it is.
abbrev pub KeepsDispatcher : Call → Type 0
KeepsDispatcher (sets_dispatcher d) = ⊥
KeepsDispatcher _ = Unit {0}

-- The subscriber of the events knows what is so.
record IsHeard (s : SessionContext) : Type 0 where
  connected : s.has_dispatcher ≡ true
  known : hear_all (some false) s.events ≡ some s.active

unlock-IsHeard : (now : ℕ) (h : List ℕ) (s : SessionContext) → IsHeard s → IsHeard (unlock now h s)
unfolding unlock
unlock-IsHeard now h s i = record {
  connected = i.connected;
  known = rw (i.connected) (
      hear_all-append (some false) s.events (auth_ready now)
      ∙ ap (λ b. hear b (auth_ready now)) i.known);
}

lock-IsHeard : (s : SessionContext) → IsHeard s → IsHeard (lock s)
unfolding lock
lock-IsHeard s i = elim (Bool-cases s.active) [
  | inl on ↦ rw on (record {
    connected = i.connected;
    known = rw (i.connected) (
        hear_all-append (some false) s.events auth_logout
        ∙ ap (λ b. hear b auth_logout) (i.known ∙ ap some on));
  })
  | inr off ↦ rw off (record { connected = i.connected; known = i.known ∙ ap some off })
]

tick_cases :
    (now : ℕ) (s : SessionContext) (timer : Option Timer)
    → s.auto_lock_timer ≡ timer
    → (tick now s ≡ s) ⊎ (tick now s ≡ lock s)
unfolding tick
tick_cases now s none e = inl (ground (arith, e))
tick_cases now s (some stopped) e = inl (ground (arith, e))
tick_cases now s (some (fires_at t)) e = elim (Bool-cases (leb t now)) [
  | inl due ↦ inr (ground (arith, e, due))
  | inr early ↦ inl (ground (arith, e, early))
]

tick-IsHeard : (now : ℕ) (s : SessionContext) → IsHeard s → IsHeard (tick now s)
unfolding tick
tick-IsHeard now s i = elim (tick_cases now s s.auto_lock_timer refl) [
  | inl same ↦ subst IsHeard (sym same) i
  | inr locked ↦ subst IsHeard (sym locked) (lock-IsHeard s i)
]

step-IsHeard : (s : SessionContext) (c : Call) → KeepsDispatcher c → IsHeard s → IsHeard (step s c)
unfolding step set_auto_lock_minutes reset_activity tick
step-IsHeard s (sets_minutes m) k i = record { connected = i.connected; known = i.known }
step-IsHeard s (resets now) k i = ground (arith, i.connected, i.known)
step-IsHeard s (sets_dispatcher d) k i = absurd k
step-IsHeard s (unlocks now h) k i = unlock-IsHeard now h s i
step-IsHeard s locks k i = lock-IsHeard s i
step-IsHeard s (time_passes now) k i = tick-IsHeard now s i

run-IsHeard :
    (s : SessionContext) (cs : List Call) → All KeepsDispatcher cs → IsHeard s → IsHeard (run s cs)
unfolding run
run-IsHeard s [] k i = i
run-IsHeard s (c ∷ cs) k i = run-IsHeard (step s c) cs k.1 (step-IsHeard s c k.0 i)

-- From a new session with a dispatcher, whatever is called that leaves the dispatcher, and whenever the
-- timer fires: who follows the events knows at any time whether the vault is unlocked, and never hears
-- of the locking of a vault that is locked.
pub hear_all-run :
    (cs : List Call)
    → All KeepsDispatcher cs
    → let s = run (set_dispatcher true create) cs in hear_all (some false) s.events ≡ some s.active
unfolding create set_dispatcher
hear_all-run cs k =
    (run-IsHeard (set_dispatcher true create) cs k
      (record { connected = refl; known = refl })).known
