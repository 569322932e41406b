-- ===== src/Security/Audit/Chain.antt =====
-- The chain of hashes over a sequence of appends.
use grimlocker_public.Base.{
  ℕ, ◌≡◌, refl, sym, ap, ap₂, ◌∙◌, List, [], ◌∷◌, ◌++◌, arith, length, take_all, take, drop,
  drop_all, replicate, length-replicate, All, All-drop, All-append, subst,
}
use mathlib.Core.List.{append_assoc, append-nil}
use grimlocker_public.Base.Int.{ℤ}
use grimlocker_public.Security.Audit.{
  of_last_hash, SecurityEvent, AuditLog, capacity_or_default, create, write_slot, slots,
  digest_input, stamped, sealed, append, bytes_of,
}
use grimlocker_public.Security.Audit.Link.{link, sealed-link, events_kept, capacity-events_kept}
use grimlocker_public.Security.Audit.Newest.{newest, newest_all, newest-newest_append}
use grimlocker_public.Security.Audit.Ring.{
  IsValid, contents, length-slots, create-IsValid, write_slot-IsValid,
}
use grimlocker_public.Security.Audit.Refinement.{contents-write_slot}

write_slot-fields :
    (e : SecurityEvent) (a : AuditLog)
    → ((write_slot e a).last_hash ≡ a.last_hash) × ((write_slot e a).cap ≡ a.cap)
unfolding write_slot
write_slot-fields e a = (ground arith, ground arith)

hashed-IsValid : (a : AuditLog) (bs : List ℕ) → IsValid a → IsValid (record a { last_hash = bs })
hashed-IsValid a bs v = ground arith

module _ (sha256 : List ℕ → List ℕ) (sized : (xs : List ℕ) → length (sha256 xs) ≡ 32) where
  -- The appends of a list of events, each with the time of its call.
  unfoldable pub append_all : List (ℕ × SecurityEvent) → AuditLog → AuditLog
  append_all [] a = a
  append_all ((now, e) ∷ es) a = append_all es (append sha256 now e a)

  -- The same events as an unbounded chain after the hash `last`.
  unfoldable pub chained : List ℕ → List (ℕ × SecurityEvent) → List SecurityEvent
  chained last [] = []
  chained last ((now, e) ∷ es) = let e' = link sha256 now last e in e' ∷ chained e'.hash es

  record Holds (cap : ℕ) (a : AuditLog) : Type 0 where
    valid : IsValid a
    capped : a.cap ≡ cap
    full_hash : length a.last_hash ≡ 32

  -- The array holds the hash of the event: both are 32 bytes long.
  copied :
      (last input : List ℕ)
      → length last ≡ 32
      → take 32 (sha256 input) ++ drop (length (take 32 (sha256 input))) last ≡ sha256 input
  copied last input h =
      let whole = take_all 32 (sha256 input) (omega (arith, sized input)) in
      let rest = drop_all 32 last (omega (arith, h)) in
      rw (whole, sized input, rest) (append-nil (sha256 input))

  append-write_slot :
      (now : ℕ) (e : SecurityEvent) (a : AuditLog)
      → length a.last_hash ≡ 32
      → let e' = sealed sha256 now a.last_hash e in
        append sha256 now e a ≡ write_slot e' (record a { last_hash = e'.hash })
  unfolding append sealed
  append-write_slot now e a h =
      ap (λ x. write_slot (sealed sha256 now a.last_hash e) (record a { last_hash = x }))
        (copied a.last_hash (digest_input a.last_hash (stamped now e)) h)

  last_hash-append :
      (now : ℕ) (e : SecurityEvent) (a : AuditLog)
      → length a.last_hash ≡ 32
      → (append sha256 now e a).last_hash ≡ (sealed sha256 now a.last_hash e).hash
  last_hash-append now e a h =
      rw (append-write_slot now e a h) (write_slot-fields (sealed sha256 now a.last_hash e) _).0

  append-Holds :
      (cap now : ℕ) (e : SecurityEvent) (a : AuditLog)
      → Holds cap a
      → Holds cap (append sha256 now e a)
  unfolding sealed
  append-Holds cap now e a h =
      let e' = sealed sha256 now a.last_hash e in
      let a' : AuditLog = record a { last_hash = e'.hash } in
      let v = hashed-IsValid a e'.hash h.valid in
      rw (append-write_slot now e a h.full_hash) (record {
        valid = write_slot-IsValid e' a' v;
        capped = (write_slot-fields e' a').1 ∙ h.capped;
        full_hash = ap length (write_slot-fields e' a').0 ∙ sized _;
      })

  contents-append :
      (cap now : ℕ) (e : SecurityEvent) (a : AuditLog)
      → Holds cap a
      → contents (append sha256 now e a)
        ≡ newest cap (contents a ++ sealed sha256 now a.last_hash e ∷ [])
  contents-append cap now e a h =
      let e' = sealed sha256 now a.last_hash e in
      let a' : AuditLog = record a { last_hash = e'.hash } in
      let v = hashed-IsValid a e'.hash h.valid in
      rw (append-write_slot now e a h.full_hash, ← h.capped) (contents-write_slot e' a' v)

  contents-append_all :
      (cap : ℕ) (es : List (ℕ × SecurityEvent)) (a : AuditLog)
      → Holds cap a
      → contents (append_all es a) ≡ newest cap (contents a ++ chained a.last_hash es)
  unfolding append_all chained
  contents-append_all cap [] a h = sym (
      rw (append-nil (contents a)) (
        newest_all cap (contents a)
          (omega (arith, length-slots a.ring a.cap a.head 0 a.size, h.valid.size_in, h.capped))))
  contents-append_all cap ((now, e) ∷ es) a h =
      let e' = sealed sha256 now a.last_hash e in
      contents-append_all cap es (append sha256 now e a) (append-Holds cap now e a h)
      ∙ ap₂ (λ xs last. newest cap (xs ++ chained last es)) (contents-append cap now e a h)
          (last_hash-append now e a h.full_hash)
      ∙ newest-newest_append cap (contents a ++ e' ∷ []) (chained e'.hash es)
      ∙ ap (newest cap) (append_assoc (contents a) (e' ∷ []) (chained e'.hash es))
      ∙ ap (λ x. newest cap (contents a ++ x ∷ chained x.hash es))
          (sealed-link sha256 now a.last_hash e)

  create-Holds : (capacity : ℤ) → Holds (capacity_or_default capacity) (create capacity)
  unfolding create
  create-Holds capacity = record {
    valid = create-IsValid capacity;
    capped = refl;
    full_hash = length-replicate {A = ℕ} 32 0;
  }

  Holds-append_all :
      (cap : ℕ) (es : List (ℕ × SecurityEvent)) (a : AuditLog)
      → Holds cap a
      → Holds cap (append_all es a)
  unfolding append_all
  Holds-append_all cap [] a h = h
  Holds-append_all cap ((now, e) ∷ es) a h =
      Holds-append_all cap es (append sha256 now e a) (append-Holds cap now e a h)

  contents_from_new :
      (capacity : ℤ) (es : List (ℕ × SecurityEvent))
      → contents (append_all es (create capacity))
        ≡ newest (capacity_or_default capacity) (chained (replicate 32 0) es)
  unfolding create slots
  contents_from_new capacity es =
      contents-append_all (capacity_or_default capacity) es (create capacity)
        (create-Holds capacity)

  -- With a hash of 32 bytes: after any appends to a new log it holds the newest events, as many as
  -- the capacity asked for, or 1024 if that is not positive, of one chain: each with its time, or
  -- that of its call if it had none, and with the hash of these bytes in a row: the hash of its
  -- predecessor, also of one that has been evicted (32 zero bytes for the first), the eight bytes of
  -- the time, and the level, the module, the message and the subject.
  pub contents-append_all-create :
      (capacity : ℤ) (es : List (ℕ × SecurityEvent))
      → contents (append_all es (create capacity))
        ≡ newest (events_kept capacity) (chained (replicate 32 0) es)
  contents-append_all-create capacity es =
      rw (← capacity-events_kept capacity) (contents_from_new capacity es)

  chained-shared :
      (last : List ℕ) (es : List (ℕ × SecurityEvent))
      → All (λ x. x.prev_hash ≡ of_last_hash) (chained last es)
  unfolding chained link
  chained-shared last [] = tt
  chained-shared last ((now, e) ∷ es) = (refl, chained-shared (link sha256 now last e).hash es)

  read_shared :
      (a : AuditLog) (xs : List SecurityEvent)
      → All (λ x. x.prev_hash ≡ of_last_hash) xs
      → All (λ x. bytes_of a x.prev_hash ≡ a.last_hash) xs
  read_shared a [] h = tt
  read_shared a (x ∷ xs) h = (ap (bytes_of a) h.0, read_shared a xs h.1)

  -- With a hash of 32 bytes: a reader finds the same bytes in PrevHash of every event that a new log holds after some
  -- appends: the hash of the newest event, and not that of the event's predecessor.
  pub prev_hash-append_all :
      (capacity : ℤ) (es : List (ℕ × SecurityEvent)) (now : ℕ) (e : SecurityEvent)
      → let a = append_all es (create capacity) in
        let a' = append sha256 now e a in
        All (λ x. bytes_of a' x.prev_hash ≡ (sealed sha256 now a.last_hash e).hash) (contents a')
  unfolding sealed
  prev_hash-append_all capacity es now e =
      let cap = capacity_or_default capacity in
      let a = append_all es (create capacity) in
      let a' = append sha256 now e a in
      let h = Holds-append_all cap es (create capacity) (create-Holds capacity) in
      let e' = sealed sha256 now a.last_hash e in
      let P : SecurityEvent → Type 0 = λ x. x.prev_hash ≡ of_last_hash in
      let before : All P (contents a) =
        rw (contents_from_new capacity es)
          (All-drop P _ (chained (replicate 32 0) es) (chained-shared (replicate 32 0) es)) in
      let after : All P (contents a') = rw (contents-append cap now e a h) (
        All-drop P _ (contents a ++ e' ∷ [])
          (All-append P (contents a) (e' ∷ []) before (refl, tt))) in
      subst (λ b. All (λ x. bytes_of a' x.prev_hash ≡ b) (contents a'))
        (last_hash-append now e a h.full_hash) (read_shared a' (contents a') after)

-- Two events with the same timestamp get the same hash as soon as their strings, written one after
-- another, agree, wherever one string ends and the next begins.
pub hash-boundaries :
    (sha256 : List ℕ → List ℕ) (now : ℕ) (last : List ℕ) (e f : SecurityEvent)
    → e.timestamp ≡ f.timestamp
    → e.level ++ (e.module_name ++ (e.message ++ e.subject_id))
      ≡ f.level ++ (f.module_name ++ (f.message ++ f.subject_id))
    → (sealed sha256 now last e).hash ≡ (sealed sha256 now last f).hash
unfolding sealed digest_input
hash-boundaries sha256 now last e f t s = ground arith
