-- ===== src/Security/IntrusionDetector.antt =====
-- engine/security/intrusion_detector.go. The mutex makes every method one step. Times are
-- nanoseconds; the readings of the clock in one method are arguments, and `notified` collects the
-- events that the callback is started with. The texts of the details are left out.
pub mod Pruning
pub mod Window
pub mod Alarms
use grimlocker_public.Base.{
  ℕ, suc, ◌+◌, ◌-◌, ◌*◌, Bool, true, false, ◌&&◌, List, [], ◌∷◌, ◌++◌, Option, none, some, ltb, leb,
  if◌then◌else◌, length, drop,
}
use grimlocker_public.Base.Dict.{Key, Dict, lookup, insert}

pub data AnomalyType : Type 0 where
  rapid_auth_failures rapid_entry_access data_exfil : AnomalyType

pub data Severity : Type 0 where
  low medium high : Severity

pub record AnomalyEvent : Type 0 where
  pub kind : AnomalyType
  pub subject : Key
  pub timestamp : ℕ
  pub severity : Severity

abbrev pub Times : Type 0
Times = Dict (List ℕ)

pub record IntrusionDetector : Type 0 where
  pub auth_failures : Times
  pub entry_reads : Times
  pub ingest_ops : Times
  pub delete_ops : Times
  pub window_size : ℕ
  pub auth_fail_threshold : ℕ
  pub read_rate_threshold : ℕ
  pub exfil_threshold : ℕ
  pub on_anomaly : Bool
  pub notified : List AnomalyEvent
  pub history : List AnomalyEvent
  pub history_max : ℕ

-- NewIntrusionDetector
unfoldable pub create : Bool → IntrusionDetector
create on_anomaly = record {
  auth_failures = [];
  entry_reads = [];
  ingest_ops = [];
  delete_ops = [];
  window_size = 300_000_000_000;
  auth_fail_threshold = 3;
  read_rate_threshold = 50;
  exfil_threshold = 20;
  on_anomaly = on_anomaly;
  notified = [];
  history = [];
  history_max = 100;
}

-- pruneWindow drops the leading times that are before `now - window`.
unfoldable pub prune_window : ℕ → ℕ → List ℕ → List ℕ
prune_window window now [] = []
prune_window window now (t ∷ ts) =
    let rest = prune_window window now ts in if ltb (t + window) now then rest else t ∷ ts

-- `m[subject]`, which is nil for a subject that is not there.
abbrev pub times_of : Key → Times → List ℕ
times_of subject m = elim (lookup subject m) [ none ↦ [] | some ts ↦ ts ]

-- The two assignments that prune a subject's times at `now` and add the time `then'`.
unfoldable pub note : ℕ → ℕ → ℕ → Key → Times → Times
note window now then' subject m =
    insert subject (prune_window window now (times_of subject m) ++ then' ∷ []) m

-- The loop that adds up the failures of all subjects.
unfoldable pub total_times : Times → ℕ
total_times [] = 0
total_times ((k, ts) ∷ m) = length ts + total_times m

unfoldable pub emit : AnomalyEvent → IntrusionDetector → IntrusionDetector
emit ev d =
    let kept = if leb d.history_max (length d.history) then drop 1 d.history else d.history in
    record d {
      history = kept ++ ev ∷ [];
      notified = if d.on_anomaly then d.notified ++ ev ∷ [] else d.notified;
    }

abbrev emit_if : Bool → AnomalyEvent → IntrusionDetector → IntrusionDetector
emit_if alarm ev d = if alarm then emit ev d else d

unfoldable pub record_auth_failure :
    (now then' at : ℕ) → Key → IntrusionDetector → IntrusionDetector
record_auth_failure now then' at subject d =
    let d' = record d { auth_failures = note d.window_size now then' subject d.auth_failures } in
    emit_if (leb d'.auth_fail_threshold (total_times d'.auth_failures))
      (record { kind = rapid_auth_failures; subject = subject; timestamp = at; severity = medium })
      d'

unfoldable pub record_entry_read : (now then' at : ℕ) → Key → IntrusionDetector → IntrusionDetector
record_entry_read now then' at subject d =
    let d' = record d { entry_reads = note d.window_size now then' subject d.entry_reads } in
    emit_if (leb d'.read_rate_threshold (length (times_of subject d'.entry_reads)))
      (record { kind = rapid_entry_access; subject = subject; timestamp = at; severity = high }) d'

unfoldable pub check_exfil_pattern : ℕ → Key → IntrusionDetector → IntrusionDetector
check_exfil_pattern at subject d =
    let ingests = length (times_of subject d.ingest_ops) in
    let deletes = length (times_of subject d.delete_ops) in
    emit_if (leb d.exfil_threshold (ingests + deletes) && (ltb 0 ingests && ltb 0 deletes))
      (record { kind = data_exfil; subject = subject; timestamp = at; severity = high }) d

unfoldable pub record_ingest_op : (now then' at : ℕ) → Key → IntrusionDetector → IntrusionDetector
record_ingest_op now then' at subject d =
    check_exfil_pattern at subject
      (record d { ingest_ops = note d.window_size now then' subject d.ingest_ops })

unfoldable pub record_delete_op : (now then' at : ℕ) → Key → IntrusionDetector → IntrusionDetector
record_delete_op now then' at subject d =
    check_exfil_pattern at subject
      (record d { delete_ops = note d.window_size now then' subject d.delete_ops })

-- History copies the events in reverse: each is put before those already copied.
unfoldable pub copy_reversed : List AnomalyEvent → List AnomalyEvent → List AnomalyEvent
copy_reversed [] out = out
copy_reversed (ev ∷ evs) out = copy_reversed evs (ev ∷ out)

abbrev pub history_of : IntrusionDetector → List AnomalyEvent
history_of d = copy_reversed d.history []
