-- ===== src/Security/Session/AutoLock.antt =====
-- What a session reveals, and when the auto-lock ends it.
use grimlocker_public.Base.{
  ℕ, ◌+◌, ◌*◌, ◌<◌, ◌≤◌, ◌≡◌, refl, All, Bool, true, false, List, [], ◌∷◌, some, arith, ltb,
  if◌then◌else◌, Bool-cases, inl, inr, ap, ◌∙◌,
}
use grimlocker_public.Base.Int.{pos}
use grimlocker_public.Security.Session.{
  Timer, fires_at, SessionContext, create, set_auto_lock_minutes, reset_activity, set_dispatcher,
  after, unlock, lock, tick, active_handle, Call, sets_minutes, resets, sets_dispatcher, unlocks,
  locks, time_passes, step, run,
}

-- A locked session keeps nothing of the session before.
pub record IsValid (s : SessionContext) : Type 0 where
  pub no_handle : s.active ≡ false → s.mvk_handle ≡ []
  pub no_times : s.active ≡ false → (s.unlocked_at ≡ 0) × (s.last_activity ≡ 0)

step-IsValid : (s : SessionContext) (c : Call) → IsValid s → IsValid (step s c)
unfolding step set_auto_lock_minutes reset_activity set_dispatcher unlock lock tick
step-IsValid s (sets_minutes m) v = ground arith
step-IsValid s (resets now) v = ground arith
step-IsValid s (sets_dispatcher d) v = ground arith
step-IsValid s (unlocks now h) v = ground arith
step-IsValid s locks v = ground arith
step-IsValid s (time_passes now) v = ground arith

run-IsValid : (s : SessionContext) (cs : List Call) → IsValid s → IsValid (run s cs)
unfolding run
run-IsValid s [] v = v
run-IsValid s (c ∷ cs) v = run-IsValid (step s c) cs (step-IsValid s c v)

create-IsValid : IsValid create
unfolding create
create-IsValid = record { no_handle = λ h. refl; no_times = λ h. (refl, refl) }

-- After any calls and timeouts, a session that is not active holds no key handle and no times.
pub locked_holds_nothing : (cs : List Call) → IsValid (run create cs)
locked_holds_nothing cs = run-IsValid create cs create-IsValid

-- Time passes at the given moments, and no method is called.
unfoldable pub idle : List ℕ → SessionContext → SessionContext
idle [] s = s
idle (t ∷ ts) s = idle ts (tick t s)

-- Whether all moments are before the deadline.
abbrev pub all_before : ℕ → List ℕ → Bool
all_before deadline [] = true
all_before deadline (t ∷ ts) =
    let rest = all_before deadline ts in if ltb t deadline then rest else false

idle_locked : (ts : List ℕ) (s : SessionContext) → s.active ≡ false → (idle ts s).active ≡ false
unfolding idle tick lock
idle_locked [] s h = h
idle_locked (t ∷ ts) s h = idle_locked ts (tick t s) (ground arith)

active_handle_on : (s : SessionContext) → s.active ≡ true → active_handle s ≡ s.mvk_handle
unfolding active_handle
active_handle_on s on = ground arith

tick_early :
    (t d : ℕ) (s : SessionContext)
    → s.auto_lock_timer ≡ some (fires_at d)
    → ltb t d ≡ true
    → tick t s ≡ s
unfolding tick
tick_early t d s armed early = ground arith

tick_late :
    (t d : ℕ) (s : SessionContext)
    → s.auto_lock_timer ≡ some (fires_at d)
    → ltb t d ≡ false
    → (tick t s).active ≡ false
unfolding tick lock
tick_late t d s armed late = ground arith

armed_until :
    (ts : List ℕ) (s : SessionContext) (deadline : ℕ)
    → s.active ≡ true
    → s.auto_lock_timer ≡ some (fires_at deadline)
    → ((idle ts s).active ≡ all_before deadline ts)
      × (all_before deadline ts ≡ true → active_handle (idle ts s) ≡ s.mvk_handle)
unfolding idle
armed_until [] s d on armed = (on, λ h. active_handle_on s on)
armed_until (t ∷ ts) s d on armed = elim (Bool-cases (ltb t d)) [
  | inl early ↦
      let same = tick_early t d s armed early in
      let (a, b) = armed_until ts s d on armed in
      rw early
        (ap (λ x. (idle ts x).active) same ∙ a, λ h. ap (λ x. active_handle (idle ts x)) same ∙ b h)
  | inr late ↦
      let off = tick_late t d s armed late in rw late (idle_locked ts (tick t s) off, λ h. cc)
]

idle_early :
    (ts : List ℕ) (s : SessionContext) (deadline : ℕ)
    → s.auto_lock_timer ≡ some (fires_at deadline)
    → all_before deadline ts ≡ true
    → idle ts s ≡ s
unfolding idle
idle_early [] s d armed early = refl
idle_early (t ∷ ts) s d armed early = elim (Bool-cases (ltb t d)) [
  | inl before ↦
      ap (idle ts) (tick_early t d s armed before) ∙ idle_early ts s d armed (ground (arith, early))
  | inr late ↦ absurd (ground (arith, early))
]

-- So many minutes do not wrap around.
after_exact : (now n : ℕ) → n ≤ 153_722_867 → after now (pos n) ≡ now + n * 60_000_000_000
after_exact now n h = ground arith

still_armed :
    (ts : List ℕ) (seen deadline : ℕ)
    → seen < deadline
    → All (λ t. t ≤ seen) ts
    → all_before deadline ts ≡ true
still_armed [] seen d h p = refl
still_armed (t ∷ ts) seen d h p = ground (arith, still_armed ts seen d h p.1, p.0)

unlocked_timer :
    (s : SessionContext) (now n : ℕ) (handle : List ℕ)
    → s.auto_lock_minutes ≡ pos n
    → 0 < n
    → n ≤ 153_722_867
    → (unlock now handle s).auto_lock_timer ≡ some (fires_at (now + n * 60_000_000_000))
unfolding unlock
unlocked_timer s now n handle m some_time h =
    let exact = after_exact now n h in ground (arith, exact)

reset_unlocked :
    (s : SessionContext) (now seen n : ℕ) (handle : List ℕ) (first : ℕ)
    → s.auto_lock_minutes ≡ pos n
    → n ≤ 153_722_867
    → (unlock now handle s).auto_lock_timer ≡ some (fires_at first)
    → let s' = reset_activity seen (unlock now handle s) in
      (s'.active ≡ true)
      × (s'.auto_lock_timer ≡ some (fires_at (seen + n * 60_000_000_000)))
      × (s'.mvk_handle ≡ handle)
unfolding reset_activity unlock
reset_unlocked s now seen n handle first m h armed =
    let exact = after_exact seen n h in
    (ground (arith, armed), ground (arith, armed, exact), ground (arith, armed))

-- For a session with an interval of 1 to 153,722,867 minutes, which is unlocked at `now` and has an
-- activity at `seen`, before the interval has passed and no earlier than `now`, while the timer may
-- have been looked at up to then: it stays unlocked, with its handle, exactly until the interval has
-- passed since `seen`, whatever moments the timer is looked at afterwards.
pub auto_lock_after_activity :
    (s : SessionContext) (now seen n : ℕ) (handle : List ℕ) (earlier ts : List ℕ)
    → s.auto_lock_minutes ≡ pos n
    → 0 < n
    → n ≤ 153_722_867
    → now ≤ seen
    → seen < now + n * 60_000_000_000
    → All (λ t. t ≤ seen) earlier
    → let s' = reset_activity seen (idle earlier (unlock now handle s)) in
      let deadline = seen + n * 60_000_000_000 in
      ((idle ts s').active ≡ all_before deadline ts)
      × (all_before deadline ts ≡ true → active_handle (idle ts s') ≡ handle)
auto_lock_after_activity s now seen n handle earlier ts m some_time small le early looked =
    let u = unlock now handle s in
    let first = now + n * 60_000_000_000 in
    let armed = unlocked_timer s now n handle m some_time small in
    let same : idle earlier u ≡ u =
      idle_early earlier u first armed (still_armed earlier seen first early looked) in
    let (on, armed', holds) = reset_unlocked s now seen n handle first m small armed in
    let (a, b) = armed_until ts (reset_activity seen u) (seen + n * 60_000_000_000) on armed' in
    rw same (a, λ h. b h ∙ holds)

-- An interval of 0 does not disable the auto-lock of a session that has a timer, even a stopped
-- one: the next activity starts it with no time left, and the session is locked at once.
pub zero_minutes_lock :
    (s : SessionContext) (now t : ℕ) (timer : Timer)
    → s.auto_lock_timer ≡ some timer
    → now ≤ t
    → (tick t (reset_activity now (set_auto_lock_minutes (pos 0) s))).active ≡ false
unfolding tick lock reset_activity set_auto_lock_minutes
zero_minutes_lock s now t timer h late = ground arith
