-- ===== src/Security/IntrusionDetector/Window.antt =====
-- The sliding window: what pruning forgets is never missed.
use grimlocker_public.Base.{
  ℕ, ◌+◌, ◌≤◌, ◌<◌, ◌≡◌, refl, sym, ap, ap₂, ◌∙◌, Bool, true, List, [], ◌∷◌, ◌++◌, arith, ltb, leb,
  if◌then◌else◌, length, length-append, nil_of_length, bytes_eq, bytes_eq_refl, ltb→lt, ltb→le,
  Bool-cases, inl, inr,
}
use grimlocker_public.Base.Dict.{Key, lookup-insert, bytes_eq_iff}
use grimlocker_public.Security.IntrusionDetector.Pruning.{prune-snoc, length-extend, prune_noted}
use grimlocker_public.Security.IntrusionDetector.{
  AnomalyEvent, rapid_entry_access, high, IntrusionDetector, Times, prune_window, times_of, note,
  emit, record_entry_read, create,
}

-- A read of a client: the time it prunes at, the one it stores and that of its alarm, and its subject.
pub record Read : Type 0 where
  pub pruned_at : ℕ
  pub stored_at : ℕ
  pub alarm_at : ℕ
  pub subject : Key

-- The reads of the clients, the newest first.
abbrev pub Reads : Type 0
Reads = List Read

-- The clock does not go back: the reads end by `now`.
abbrev pub Until : ℕ → Reads → Type 0
Until now [] = Unit
Until now (r ∷ rs) = (r.stored_at ≤ now) × (r.pruned_at ≤ r.stored_at) × Until r.pruned_at rs

abbrev pub read : Read → IntrusionDetector → IntrusionDetector
read r d = record_entry_read r.pruned_at r.stored_at r.alarm_at r.subject d

unfoldable pub run_reads : Bool → Reads → IntrusionDetector
run_reads cb [] = create cb
run_reads cb (r ∷ rs) = read r (run_reads cb rs)

-- The reads of a subject whose stored times are not older than the window.
unfoldable pub reads_within : ℕ → ℕ → Key → Reads → ℕ
reads_within w now s [] = 0
reads_within w now s (r ∷ rs) =
    let rest = reads_within w now s rs in
    if bytes_eq r.subject s then (if ltb (r.stored_at + w) now then rest else rest + 1) else rest

pub all_reads : Key → Reads → List ℕ
all_reads s [] = []
all_reads s (r ∷ rs) =
    let rest = all_reads s rs in if bytes_eq r.subject s then rest ++ r.stored_at ∷ [] else rest

none_within :
    (w now t : ℕ) (s : Key) (rs : Reads) → Until t rs → t + w < now → reads_within w now s rs ≡ 0
unfolding reads_within
none_within w now t s [] u h = refl
none_within w now t s (r ∷ rs) (le, past, u) h =
    ground (arith, none_within w now r.pruned_at s rs u (omega arith))

pruned_reads :
    (w now end : ℕ) (s : Key) (rs : Reads)
    → Until end rs
    → length (prune_window w now (all_reads s rs)) ≡ reads_within w now s rs
unfolding reads_within all_reads prune_window
pruned_reads w now end s [] u = refl
pruned_reads w now end s (r ∷ rs) (le, past, u) =
    let t = r.stored_at in
    let ih = pruned_reads w now r.pruned_at s rs u in
    let kept = prune_window w now (all_reads s rs) in
    elim (Bool-cases (bytes_eq r.subject s)) [
      | inl same ↦
          rw (same, prune-snoc w now t (all_reads s rs))
            (elim (Bool-cases (ltb (t + w) now)) [
              | inl late ↦
                  let gone =
                    none_within w now r.pruned_at s rs u (omega (arith, ltb→lt _ _ late, past)) in
                  let none : length kept ≡ 0 = ih ∙ gone in
                  rw (nil_of_length kept none, late) (sym gone)
              | inr fresh ↦
                  rw fresh (length-extend w now t kept (ltb→le _ _ fresh) ∙ ap (λ x. x + 1) ih)
            ])
      | inr other ↦ rw other ih
    ]

times_of-note :
    (w t u : ℕ) (k s : Key) (m : Times)
    → times_of s (note w t u k m)
      ≡ (if bytes_eq k s then prune_window w t (times_of k m) ++ u ∷ [] else times_of s m)
unfolding note
times_of-note w t u k s m =
    ground (arith, lookup-insert k s (prune_window w t (times_of k m) ++ u ∷ []) m)

-- A read changes the subject's times, and nothing that is configured.
read_fields :
    (r : Read) (d : IntrusionDetector)
    → let d' = read r d in
      (d'.window_size ≡ d.window_size)
      × (d'.read_rate_threshold ≡ d.read_rate_threshold)
      × (d'.on_anomaly ≡ d.on_anomaly)
      × (d'.entry_reads ≡ note d.window_size r.pruned_at r.stored_at r.subject d.entry_reads)
unfolding record_entry_read emit
read_fields r d = (ground arith, ground arith, ground arith, ground arith)

abbrev pub five_minutes : ℕ
five_minutes = 300_000_000_000

stored_reads :
    (cb : Bool) (now end : ℕ) (s : Key) (rs : Reads)
    → Until end rs
    → end ≤ now
    → let d = run_reads cb rs in
      (d.window_size ≡ five_minutes)
      × (d.read_rate_threshold ≡ 50)
      × (d.on_anomaly ≡ cb)
      × (prune_window five_minutes now (times_of s d.entry_reads)
          ≡ prune_window five_minutes now (all_reads s rs))
unfolding run_reads create all_reads
stored_reads cb now end s [] u h = (refl, refl, refl, refl)
stored_reads cb now end s (r ∷ rs) (le, past, u) h =
    let d = run_reads cb rs in
    let t = r.pruned_at in
    let k = r.subject in
    let (w, th, on, e) = stored_reads cb now t s rs u (omega arith) in
    let (w', th', on', e') = read_fields r d in
    let noted : times_of s (read r d).entry_reads
        ≡ times_of s (note five_minutes t r.stored_at k d.entry_reads) =
      ap (times_of s) (e' ∙ ap (λ x. note x t r.stored_at k d.entry_reads) w) in
    (
      w' ∙ w,
      th' ∙ th,
      on' ∙ on,
      ap (prune_window five_minutes now)
            (noted ∙ times_of-note five_minutes t r.stored_at k s d.entry_reads)
          ∙ elim (Bool-cases (bytes_eq k s)) [
            | inl same ↦
                let one : k ≡ s = (bytes_eq_iff k s).0 same in
                rw (same, one)
                  (prune_noted five_minutes t r.stored_at now (times_of s d.entry_reads)
                    (all_reads s rs) (omega arith) e)
            | inr other ↦ rw other e
          ],
    )

length-note :
    (w t u : ℕ) (s : Key) (m : Times)
    → length (times_of s (note w t u s m)) ≡ length (prune_window w t (times_of s m)) + 1
length-note w t u s m =
    ap length (times_of-note w t u s s m)
    ∙ rw (bytes_eq_refl s) (length-append (prune_window w t (times_of s m)) (u ∷ []))

read_notifies :
    (r : Read) (d : IntrusionDetector)
    → d.on_anomaly ≡ true
    → length (read r d).notified
      ≡ length d.notified
        + (if leb d.read_rate_threshold (
              length (
                times_of r.subject
                  (note d.window_size r.pruned_at r.stored_at r.subject d.entry_reads)))
            then 1
            else 0)
unfolding record_entry_read emit
read_notifies r d on =
    let ev : AnomalyEvent = record {
      kind = rapid_entry_access;
      subject = r.subject;
      timestamp = r.alarm_at;
      severity = high;
    } in
    ground (arith, length-append d.notified (ev ∷ []))

-- Each read takes three times, one to prune at, one to store and one for its alarm. When no read
-- stores an earlier time than it pruned at, nor prunes at an earlier time than the read before stored:
-- a read raises an alarm exactly if, with itself, at least 50 reads of its subject were stored no
-- more than five minutes before the time it prunes at, although the detector forgets older ones.
pub read_alarm :
    (rs : Reads) (r : Read)
    → Until r.pruned_at rs
    → let d = run_reads true rs in
      length (read r d).notified
      ≡ length d.notified
        + (if leb 50 (reads_within five_minutes r.pruned_at r.subject rs + 1) then 1 else 0)
read_alarm rs r u =
    let now = r.pruned_at in
    let s = r.subject in
    let d = run_reads true rs in
    let (w, th, on, e) = stored_reads true now now s rs u (omega arith) in
    let count : length (times_of s (note d.window_size now r.stored_at s d.entry_reads))
        ≡ reads_within five_minutes now s rs + 1 =
      length-note d.window_size now r.stored_at s d.entry_reads
      ∙ ap (λ x. length (prune_window x now (times_of s d.entry_reads)) + 1) w
      ∙ ap (λ xs. length xs + 1) e
      ∙ ap (λ x. x + 1) (pruned_reads five_minutes now now s rs u) in
    read_notifies r d on ∙ ap₂ (λ x y. length d.notified + (if leb x y then 1 else 0)) th count
