-- ===== src/Security/MonitorTests.antt =====
-- Runs of the audit log, the intrusion detector, a session and the secret guard, and the theorems
-- at them.
use grimlocker_public.Base.{
  ℕ, ◌+◌, ◌*◌, ◌≡◌, refl, ◌≢◌, true, false, List, [], ◌∷◌, none, some, arith, length, get_or,
  replicate, length-replicate, leb, if◌then◌else◌,
}
use grimlocker_public.Base.Dict.{Key, lookup}
use grimlocker_public.Base.Int.{pos}
use grimlocker_public.Security.Audit.{SecurityEvent, AuditLog, zero_event, create, recent, drain}
use grimlocker_public.Security.Audit.Newest.{newest}
use grimlocker_public.Security.Audit.Ring.{IsValid, contents}
use grimlocker_public.Security.Audit.Refinement.{recent-newest}
use grimlocker_public.Security.Audit.Chain.{append_all, chained, contents-append_all-create}
use grimlocker_public.Security.IntrusionDetector.{
  AnomalyEvent, rapid_entry_access, high, IntrusionDetector,
}
use grimlocker_public.Security.IntrusionDetector.Window.{
  Read, Reads, read, run_reads, reads_within, five_minutes, read_alarm,
}
use grimlocker_public.Security.Session
use grimlocker_public.Security.Session.{
  Call, resets, unlocks, locks, time_passes, SessionContext, stopped, reset_activity,
  set_auto_lock_minutes, unlock, tick, after, active_handle, run,
}
use grimlocker_public.Security.Session.AutoLock
use grimlocker_public.Security.Session.AutoLock.{
  all_before, idle, locked_holds_nothing, auto_lock_after_activity, zero_minutes_lock,
}
use grimlocker_public.Security.SecretGuard.{SecretGuard, store, retrieve}
use grimlocker_public.Security.SecretGuard.Wiping.{retrieve-store}

-- Stands in for the hash: 32 times the length of its input.
abbrev toy_hash : List ℕ → List ℕ
toy_hash xs = replicate 32 (length xs)

toy_sized : (xs : List ℕ) → length (toy_hash xs) ≡ 32
toy_sized xs = length-replicate {A = ℕ} 32 (length xs)

abbrev event : ℕ → SecurityEvent
event n = record zero_event { timestamp = n; level = 73 ∷ []; message = 1 ∷ 2 ∷ [] }

abbrev three_events : List (ℕ × SecurityEvent)
three_events = (10, event 0) ∷ (20, event 5) ∷ (30, event 0) ∷ []

contents-append_all-create_example :
    contents (append_all toy_hash toy_sized three_events (create (pos 2)))
    ≡ newest 2 (chained toy_hash toy_sized (replicate 32 0) three_events)
contents-append_all-create_example =
    contents-append_all-create toy_hash toy_sized (pos 2) three_events

-- A log of capacity 2 after a wrap.
abbrev wrapped : AuditLog
wrapped = record {
  ring = event 3 ∷ event 2 ∷ [];
  cap = 2;
  head = 1;
  size = 2;
  last_hash = replicate 32 9;
}

recent-newest_example :
    (recent (pos 1) wrapped ≡ some (newest 1 (contents wrapped)))
    × ((drain wrapped).0 ≡ contents wrapped)
    × (contents (drain wrapped).1 ≡ [])
    × IsValid (drain wrapped).1
recent-newest_example = recent-newest 1 wrapped (ground arith)

abbrev bob : Key
bob = 1 ∷ []

abbrev eve : Key
eve = 2 ∷ []

abbrev two_reads : Reads
two_reads =
    record { pruned_at = 20; stored_at = 21; alarm_at = 22; subject = eve }
    ∷ record { pruned_at = 10; stored_at = 10; alarm_at = 11; subject = bob }
    ∷ []

abbrev third_read : Read
third_read = record { pruned_at = 30; stored_at = 32; alarm_at = 35; subject = bob }

read_alarm_example :
    let d = run_reads true two_reads in
    length (read third_read d).notified
    ≡ length d.notified + (if leb 50 (reads_within five_minutes 30 bob two_reads + 1) then 1 else 0)
read_alarm_example = read_alarm two_reads third_read (ground arith)

abbrev old_failures : IntrusionDetector
old_failures = record {
  auth_failures = (bob, 1 ∷ 2 ∷ []) ∷ [];
  entry_reads = [];
  ingest_ops = [];
  delete_ops = [];
  window_size = 300_000_000_000;
  auth_fail_threshold = 3;
  read_rate_threshold = 50;
  exfil_threshold = 20;
  on_anomaly = true;
  notified = [];
  history = [];
  history_max = 100;
}

abbrev anomaly : AnomalyEvent
anomaly = record { kind = rapid_entry_access; subject = eve; timestamp = 3; severity = high }

abbrev calls : List Call
calls = unlocks 5 (1 ∷ 2 ∷ []) ∷ resets 9 ∷ locks ∷ []

locked_holds_nothing_example : AutoLock.IsValid (run Session.create calls)
locked_holds_nothing_example = locked_holds_nothing calls

create-minutes : Session.create.auto_lock_minutes ≡ pos 15
unfolding Session.create
create-minutes = refl

-- 200,000,000 minutes wrap around to a negative duration.
too_long : after 7 (pos 200_000_000) ≡ 7
too_long = refl

abbrev activity : SessionContext
activity = reset_activity 9 (idle (6 ∷ 8 ∷ []) (unlock 5 (1 ∷ 2 ∷ []) Session.create))

abbrev moments : List ℕ
moments = 100 ∷ 900_000_000_009 ∷ []

auto_lock_after_activity_example :
    let deadline = 9 + 15 * 60_000_000_000 in
    ((idle moments activity).active ≡ all_before deadline moments)
    × (all_before deadline moments ≡ true → active_handle (idle moments activity) ≡ 1 ∷ 2 ∷ [])
auto_lock_after_activity_example =
    auto_lock_after_activity Session.create 5 9 15 (1 ∷ 2 ∷ []) (6 ∷ 8 ∷ []) moments create-minutes
      (ground arith) (ground arith) (ground arith) (ground arith) (ground arith)

abbrev unlocked : SessionContext
unlocked = record {
  active = true;
  mvk_handle = 1 ∷ 2 ∷ [];
  unlocked_at = 3;
  has_dispatcher = false;
  events = [];
  auto_lock_minutes = pos 15;
  auto_lock_timer = some stopped;
  last_activity = 3;
}

abbrev guard : SecretGuard
guard = record { slots = (eve, 0) ∷ []; heap = (4 ∷ []) ∷ [] }

retrieve-store_example :
    let g' = (store (some bob) (5 ∷ 6 ∷ []) guard).1 in
    let after = (retrieve bob g').1 in
    ((retrieve bob g').0 ≡ some (5 ∷ 6 ∷ []))
    × ((retrieve bob after).0 ≡ none)
    × (get_or after.heap 1 [] ≡ 0 ∷ 0 ∷ [])
    × ((other : Key) → bob ≢ other → lookup other after.slots ≡ lookup other guard.slots)
retrieve-store_example = retrieve-store bob (5 ∷ 6 ∷ []) guard
