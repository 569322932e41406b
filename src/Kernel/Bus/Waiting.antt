-- ===== src/Kernel/Bus/Waiting.antt =====
-- Request of engine/kernel/bus.go: what each operation of the bus does to a waiting request.
use grimlocker_public.Base.{
  ◌≡◌, refl, sym, ap, ◌∙◌, Bool, false, List, [], ◌∷◌, ◌++◌, ℕ, ◌<◌, Option, none, some, arith,
  bytes_eq, if◌then◌else◌, Bool-cases, Option-cases, inl, inr, get_or, length, length-set,
  get_or-set, get_or-set_other, length-append, ◌+◌,
}
use grimlocker_public.Base.Dict.{Key, lookup, insert, lookup-insert, lookup-erase, bytes_eq_iff}
use grimlocker_public.Kernel.Event.{Event}
use grimlocker_public.Kernel.Bus.{
  Bus, offer, RequestResult, replied, timed_out, bus_shut_down, signal, dispatch, begin_request,
  end_request,
}
use grimlocker_public.Kernel.Bus.Onward.{onward, hop-onward}
use grimlocker_public.Kernel.Bus.Calls.{Call, dispatches, begins, ends}

-- The first of two that there is.
abbrev pub first_of : Option Event → Option Event → Option Event
first_of none r = r
first_of (some e) r = some e

pub first_of_assoc : (p q r : Option Event) → first_of (first_of p q) r ≡ first_of p (first_of q r)
first_of_assoc none q r = refl
first_of_assoc (some e) q r = refl

pub first_of-none : (p : Option Event) → first_of p none ≡ p
first_of-none none = refl
first_of-none (some e) = refl

-- A channel of capacity 1 keeps the first event.
pub get_or-offer :
    (cs : List (Option Event)) (i : ℕ) (e : Event)
    → i < length cs
    → get_or (offer i e cs) i none ≡ first_of (get_or cs i none) (some e)
get_or-offer cs i e h = elim (Option-cases (get_or cs i none)) [
  | inl empty ↦ rw (empty, offer) (get_or-set cs i (some e) none h)
  | inr (e', full) ↦ rw (full, offer) full
]

pub get_or-offer_other :
    (cs : List (Option Event)) (i j : ℕ) (e : Event)
    → ¬ (i ≡ j)
    → get_or (offer j e cs) i none ≡ get_or cs i none
get_or-offer_other cs i j e h = ground (arith, get_or-set_other cs i j (some e) none h)

pub length-offer :
    (cs : List (Option Event)) (j : ℕ) (e : Event) → length (offer j e cs) ≡ length cs
length-offer cs j e = ground (arith, length-set cs j (some e))

abbrev pub request_id : Key → Event → Key
request_id fresh e = if bytes_eq e.id [] then fresh else e.id

-- What the select of Request can choose from.
abbrev pub may_return : Option Event → Bool → Bool → List RequestResult
may_return reply is_done is_cancelled =
    (elim reply as (λ _. List RequestResult) [ none ↦ [] | some e ↦ replied e ∷ [] ])
    ++ ((if is_done then timed_out ∷ [] else [])
        ++ (if is_cancelled then bus_shut_down ∷ [] else []))

module _ {H : Type 0} where
  abbrev pub received : ℕ → Bus H → Option Event
  received addr b = get_or b.reply_channels addr none

  -- Every waiting request has a reply channel.
  pub record IsAddressed (b : Bus H) : Type 0 where
    pub in_range : (k : Key) (a : ℕ) → lookup k b.pending ≡ some a → a < length b.reply_channels

  -- The identifier waits at the address and no other does.
  pub record Waits (id : Key) (addr : ℕ) (b : Bus H) : Type 0 where
    pub waiting : lookup id b.pending ≡ some addr
    pub allocated : addr < length b.reply_channels
    pub alone : (k : Key) → lookup k b.pending ≡ some addr → k ≡ id
    pub named : ¬ (id ≡ [])

  -- The call neither begins nor ends a request with this identifier.
  abbrev pub Spares : Key → Call H → Type 0
  Spares id (begins fresh e) = bytes_eq (request_id fresh e) id ≡ false
  Spares id (ends k) = bytes_eq k id ≡ false
  Spares id _ = Unit

  -- The answer to the identifier that a call may dispatch, as the handlers get it.
  abbrev pub answer : Key → Call H → Option Event
  answer id (dispatches now e) = elim (onward now e) [
    | none ↦ none
    | some e' ↦ if bytes_eq e'.reply_to id then some e' else none
  ]
  answer id _ = none

  unfoldable pub first_reply : Key → List (Call H) → Option Event
  first_reply id [] = none
  first_reply id (c ∷ cs) = first_of (answer id c) (first_reply id cs)

  pub unchanged-Waits :
      (id : Key) (addr : ℕ) (b b' : Bus H)
      → b'.pending ≡ b.pending
      → length b'.reply_channels ≡ length b.reply_channels
      → Waits id addr b
      → Waits id addr b'
  unchanged-Waits id addr b b' e f w = record {
    waiting = rw e w.waiting;
    allocated = rw f w.allocated;
    alone = rw e w.alone;
    named = w.named;
  }

  pub length-signal :
      (e : Event) (b : Bus H) → length (signal e b).reply_channels ≡ length b.reply_channels
  unfolding signal
  length-signal e b = elim (Bool-cases (bytes_eq e.reply_to [])) [
    | inl none_waits ↦ rw none_waits refl
    | inr replies ↦ elim (Option-cases (lookup e.reply_to b.pending)) [
      | inl unknown ↦ rw (replies, unknown) refl
      | inr (addr, found) ↦ rw (replies, found) (length-offer b.reply_channels addr e)
    ]
  ]

  pub pending-signal : (e : Event) (b : Bus H) → (signal e b).pending ≡ b.pending
  unfolding signal
  pending-signal e b = ground arith

  pub received-signal_other :
      (id : Key) (addr : ℕ) (e : Event) (b : Bus H)
      → Waits id addr b
      → ¬ (e.reply_to ≡ id)
      → received addr (signal e b) ≡ received addr b
  unfolding signal
  received-signal_other id addr e b w other = elim (Bool-cases (bytes_eq e.reply_to [])) [
    | inl none_waits ↦ rw none_waits refl
    | inr replies ↦ elim (Option-cases (lookup e.reply_to b.pending)) [
      | inl unknown ↦ rw (replies, unknown) refl
      | inr (a, found) ↦
          rw (replies, found)
            (get_or-offer_other b.reply_channels addr a e
              (λ same. other (w.alone e.reply_to (found ∙ ap some (sym same)))))
    ]
  ]

  pub received-signal_same :
      (id : Key) (addr : ℕ) (e : Event) (b : Bus H)
      → Waits id addr b
      → e.reply_to ≡ id
      → received addr (signal e b) ≡ first_of (received addr b) (some e)
  unfolding signal
  received-signal_same id addr e b w same =
      let replies : bytes_eq e.reply_to [] ≡ false =
        ground (arith, bytes_eq_iff e.reply_to [], same, w.named) in
      let found : lookup e.reply_to b.pending ≡ some addr = rw same w.waiting in
      rw (replies, found) (get_or-offer b.reply_channels addr e w.allocated)

  pub received-signal :
      (id : Key) (addr : ℕ) (e : Event) (b : Bus H)
      → Waits id addr b
      → received addr (signal e b)
        ≡ first_of (received addr b) (if bytes_eq e.reply_to id then some e else none)
  received-signal id addr e b w = elim (Bool-cases (bytes_eq e.reply_to id)) [
    | inl same ↦ rw same (received-signal_same id addr e b w ((bytes_eq_iff e.reply_to id).0 same))
    | inr other ↦ rw other (
        received-signal_other id addr e b w (ground (arith, bytes_eq_iff e.reply_to id))
        ∙ sym (first_of-none (received addr b)))
  ]

  pub received-dispatch :
      (id : Key) (addr now : ℕ) (e : Event) (b : Bus H)
      → Waits id addr b
      → received addr (dispatch now e b).0
        ≡ first_of (received addr b) (answer id (dispatches now e))
  unfolding dispatch
  received-dispatch id addr now e b w =
      let same = hop-onward now e in
      elim (Option-cases (onward now e)) [
        | inl expired ↦ rw (same, expired, dispatch, answer) (sym (first_of-none (received addr b)))
        | inr (e', goes_on) ↦ rw (same, goes_on, dispatch, answer) (received-signal id addr e' b w)
      ]

  pub pending-begin_request :
      (fresh : Key) (e : Event) (b : Bus H)
      → (begin_request fresh e b).2.pending
        ≡ insert (request_id fresh e) (length b.reply_channels) b.pending
  unfolding begin_request
  pending-begin_request fresh e b = elim (Bool-cases (bytes_eq e.id [])) [
    | inl unnamed ↦ rw (unnamed, begin_request, request_id) refl
    | inr is_named ↦ rw (is_named, begin_request, request_id) refl
  ]

  -- A request that another one begins gets a channel of its own.
  pub begin_request-Waits :
      (id : Key) (addr : ℕ) (fresh : Key) (e : Event) (b : Bus H)
      → Waits id addr b
      → Spares id (begins fresh e)
      → Waits id addr (begin_request fresh e b).2
  unfolding begin_request
  begin_request-Waits id addr fresh e b w h =
      let k = request_id fresh e in
      let n = length b.reply_channels in
      let more : length (b.reply_channels ++ none ∷ []) ≡ n + 1 =
        length-append b.reply_channels (none ∷ []) in
      let p = pending-begin_request fresh e b in
      record {
        waiting = ap (lookup id) p ∙ lookup-insert k id n b.pending ∙ (rw h w.waiting);
        allocated = ground (arith, more, w.allocated);
        alone = λ j found.
            let q = sym (lookup-insert k j n b.pending) ∙ sym (ap (lookup j) p) ∙ found in
            w.alone j (ground (arith, w.allocated));
        named = w.named;
      }

  pub end_request-Waits :
      (id : Key) (addr : ℕ) (k : Key) (b : Bus H)
      → Waits id addr b
      → Spares id (ends k)
      → Waits id addr (end_request k b)
  unfolding end_request
  end_request-Waits id addr k b w h = record {
    waiting = rw (lookup-erase k id b.pending, h) w.waiting;
    allocated = w.allocated;
    alone = λ j found. w.alone j (ground (arith, lookup-erase k j b.pending));
    named = w.named;
  }
