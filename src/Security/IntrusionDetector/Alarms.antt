-- ===== src/Security/IntrusionDetector/Alarms.antt =====
-- When the detector raises an alarm, and what it remembers of the alarms.
use grimlocker_public.Base.{
  ℕ, ◌+◌, ◌-◌, ◌≤◌, ◌<◌, ◌≡◌, ◌≢◌, refl, sym, ap, ◌∙◌, true, List, [], ◌∷◌, ◌++◌, some, arith, leb,
  length, drop, length-append, length-drop, bytes_eq_refl, Bool-cases, inl, inr,
}
use grimlocker_public.Base.Dict.{Key, lookup, insert, lookup-insert, bytes_eq_iff}
use grimlocker_public.Security.Audit.Newest.{newest, newest_all, drop-append}
use grimlocker_public.Security.IntrusionDetector.{
  AnomalyEvent, rapid_auth_failures, medium, IntrusionDetector, Times, prune_window, times_of, note,
  total_times, emit, record_auth_failure,
}

-- The total counts what any subject has.
total_at_least :
    (k : Key) (ts : List ℕ) (m : Times) → lookup k m ≡ some ts → length ts ≤ total_times m
unfolding total_times
total_at_least k ts [] h = cc
total_at_least k ts ((j, us) ∷ m) h = ground (arith, total_at_least k ts m)

total_two :
    (k j : Key) (ts us : List ℕ) (m : Times)
    → k ≢ j
    → lookup k m ≡ some ts
    → lookup j m ≡ some us
    → length ts + length us ≤ total_times m
unfolding total_times
total_two k j ts us [] n h i = cc
total_two k j ts us ((x, vs) ∷ m) n h i = ground (
  arith,
  bytes_eq_iff x k,
  bytes_eq_iff x j,
  total_at_least k ts m,
  total_at_least j us m,
  total_two k j ts us m n,
)

-- A failure counts those of other subjects however old they are: with the threshold of 3 and a
-- callback, two recorded failures of another subject are enough for an alarm at any failure.
pub stale_failures :
    (now : ℕ) (s other : Key) (ts : List ℕ) (d : IntrusionDetector)
    → d.auth_fail_threshold ≡ 3
    → d.on_anomaly ≡ true
    → s ≢ other
    → lookup other d.auth_failures ≡ some ts
    → 2 ≤ length ts
    → length (record_auth_failure now now now s d).notified ≡ length d.notified + 1
unfolding record_auth_failure emit note
stale_failures now s other ts d three on n found two =
    let mine : List ℕ = prune_window d.window_size now (times_of s d.auth_failures) ++ now ∷ [] in
    let m : Times = insert s mine d.auth_failures in
    let own : lookup s m ≡ some mine =
      lookup-insert s s mine d.auth_failures ∙ rw (bytes_eq_refl s) refl in
    let theirs : lookup other m ≡ some ts =
      ground (arith, lookup-insert s other mine d.auth_failures, bytes_eq_iff s other) in
    let total = total_two s other mine ts m n own theirs in
    let one =
      length-append (prune_window d.window_size now (times_of s d.auth_failures)) (now ∷ []) in
    let enough : leb d.auth_fail_threshold (total_times m) ≡ true = ground (arith, total, one) in
    let ev : AnomalyEvent = record {
      kind = rapid_auth_failures;
      subject = s;
      timestamp = now;
      severity = medium;
    } in
    rw (enough, on) (length-append d.notified (ev ∷ []))

-- With a positive `history_max` that the history does not exceed, an event is remembered with the
-- newest ones before it, `history_max` in all.
pub history-emit :
    (ev : AnomalyEvent) (d : IntrusionDetector)
    → 0 < d.history_max
    → length d.history ≤ d.history_max
    → ((emit ev d).history ≡ newest d.history_max (d.history ++ ev ∷ []))
      × (length (emit ev d).history ≤ d.history_max)
unfolding emit
history-emit ev d some_room h = elim (Bool-cases (leb d.history_max (length d.history))) [
  | inl full ↦
      let at_cap : d.history_max ≤ length d.history = ground arith in
      let one : length (d.history ++ ev ∷ []) - d.history_max ≡ 1 =
        omega (arith, length-append d.history (ev ∷ [])) in
      rw full (
        sym (
            ap (λ k. drop k (d.history ++ ev ∷ [])) one
            ∙ drop-append 1 d.history (ev ∷ []) (omega arith)),
        omega (arith, length-append (drop 1 d.history) (ev ∷ []), length-drop 1 d.history),
      )
  | inr free ↦
      let below : length d.history < d.history_max = ground arith in
      let grown = length-append d.history (ev ∷ []) in
      rw free (sym (newest_all d.history_max (d.history ++ ev ∷ []) (omega arith)), omega arith)
]
