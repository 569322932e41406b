-- ===== src/Security/Session.antt =====
-- engine/security/session.go. The mutex makes the changes of a method one step; the event that a
-- method dispatches after them is in the same step, as when no other call comes between. Times are nanoseconds, and 0
-- is the zero time; the auto-lock timer of time.AfterFunc calls Lock when it fires. A timer that
-- is reset starts again, also one that was stopped or has fired. `events` collects the events that
-- the dispatcher is given.
pub mod AutoLock
pub mod Events
pub mod OnBus
pub mod Races
use grimlocker_public.Base.{
  ℕ, suc, ◌+◌, ◌-◌, ◌*◌, ◌/◌, ◌%◌, ◌^◌, not, ◌==◌, bytes_eq, Bool, true, false, List, [], ◌∷◌, ◌++◌,
  Option, none, some, ltb, leb, if◌then◌else◌,
}
use grimlocker_public.Base.Int.{ℤ, pos, negsuc, leb_ℤ, pos_part}

pub data Timer : Type 0 where
  stopped : Timer
  fires_at : ℕ → Timer

pub data Event : Type 0 where
  auth_ready : ℕ → Event
  auth_logout : Event

pub record SessionContext : Type 0 where
  pub active : Bool
  pub mvk_handle : List ℕ
  pub unlocked_at : ℕ
  pub has_dispatcher : Bool
  pub events : List Event
  pub auto_lock_minutes : ℤ
  pub auto_lock_timer : Option Timer
  pub last_activity : ℕ

-- NewSessionContext
unfoldable pub create : SessionContext
create = record {
  active = false;
  mvk_handle = [];
  unlocked_at = 0;
  has_dispatcher = false;
  events = [];
  auto_lock_minutes = pos 15;
  auto_lock_timer = none;
  last_activity = 0;
}

unfoldable pub set_auto_lock_minutes : ℤ → SessionContext → SessionContext
set_auto_lock_minutes minutes s = record s { auto_lock_minutes = minutes }

-- `time.Duration(minutes) * time.Minute`: the low 64 bits of the product, and the int64 they stand for.
abbrev pub duration_bits : ℤ → ℕ
duration_bits (pos n) = n * 60_000_000_000 % 2 ^ 64
duration_bits (negsuc n) = (2 ^ 64 - suc n * 60_000_000_000 % 2 ^ 64) % 2 ^ 64

abbrev pub duration : ℤ → ℤ
duration minutes =
    let bits = duration_bits minutes in
    if ltb bits (2 ^ 63) then pos bits else negsuc (2 ^ 64 - bits - 1)

-- When a timer of so many minutes fires; one with a negative duration fires at once.
abbrev pub after : ℕ → ℤ → ℕ
after now minutes = now + pos_part (duration minutes)

unfoldable pub reset_activity : ℕ → SessionContext → SessionContext
reset_activity now s = elim s.auto_lock_timer [
  | none ↦ s
  | some _ ↦ record s { auto_lock_timer = some (fires_at (after now s.auto_lock_minutes)) }
]

unfoldable pub set_dispatcher : Bool → SessionContext → SessionContext
set_dispatcher given s = record s { has_dispatcher = given }

abbrev pub stop : Option Timer → Option Timer
stop none = none
stop (some _) = some stopped

abbrev pub dispatch : Event → SessionContext → SessionContext
dispatch ev s = record s { events = if s.has_dispatcher then s.events ++ ev ∷ [] else s.events }

-- Unlock, with the two readings of the clock and the start of the timer at one time.
unfoldable pub unlock : ℕ → List ℕ → SessionContext → SessionContext
unlock now handle s =
    let old = stop s.auto_lock_timer in
    dispatch (auth_ready now) (record s {
      active = true;
      mvk_handle = handle;
      unlocked_at = now;
      last_activity = now;
      auto_lock_timer =
          if leb_ℤ s.auto_lock_minutes (pos 0)
          then old
          else some (fires_at (after now s.auto_lock_minutes));
    })

unfoldable pub lock : SessionContext → SessionContext
lock s =
    let s' = record s {
      active = false;
      mvk_handle = [];
      unlocked_at = 0;
      last_activity = 0;
      auto_lock_timer = stop s.auto_lock_timer;
    } in
    if s.active then dispatch auth_logout s' else s'

-- What the run time does at a time: a timer that is due fires once, and calls Lock.
unfoldable pub tick : ℕ → SessionContext → SessionContext
tick now s = elim s.auto_lock_timer [
  | none ↦ s
  | some stopped ↦ s
  | some (fires_at t) ↦ if leb t now then lock s else s
]

unfoldable pub active_handle : SessionContext → List ℕ
active_handle s = if s.active then s.mvk_handle else []

-- IsUnlocked, and the accessor of the handle.
abbrev pub is_unlocked : SessionContext → Bool
is_unlocked s = s.active

abbrev pub stored_handle : SessionContext → List ℕ
stored_handle s = s.mvk_handle

-- Health. The zero time is 62135596800 seconds before 1970, and `time.Since` of it is the longest
-- duration; the age is in nanoseconds.
pub record Health : Type 0 where
  pub active : Bool
  pub has_handle : Bool
  pub unlocked_at : ℤ
  pub age : ℕ

unfoldable pub health : ℕ → SessionContext → Health
health now s = record {
  active = s.active;
  has_handle = not (bytes_eq s.mvk_handle []);
  unlocked_at =
      if s.unlocked_at == 0 then negsuc 62_135_596_799 else pos (s.unlocked_at / 1_000_000_000);
  age = if s.unlocked_at == 0 then 2 ^ 63 - 1 else now - s.unlocked_at;
}

-- RequireUnlocked: whether there is no error.
abbrev pub require_unlocked : SessionContext → Bool
require_unlocked s = is_unlocked s

pub data Call : Type 0 where
  sets_minutes : ℤ → Call
  resets : ℕ → Call
  sets_dispatcher : Bool → Call
  unlocks : ℕ → List ℕ → Call
  locks : Call
  time_passes : ℕ → Call

unfoldable pub step : SessionContext → Call → SessionContext
unfolding set_auto_lock_minutes reset_activity set_dispatcher unlock lock tick
step s (sets_minutes m) = set_auto_lock_minutes m s
step s (resets now) = reset_activity now s
step s (sets_dispatcher d) = set_dispatcher d s
step s (unlocks now h) = unlock now h s
step s locks = lock s
step s (time_passes now) = tick now s

unfoldable pub run : SessionContext → List Call → SessionContext
run s [] = s
run s (c ∷ cs) = run (step s c) cs
