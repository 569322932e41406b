-- ===== src/Kernel/Bus.antt =====
-- engine/kernel/bus.go, with the interfaces of engine/kernel/dispatcher.go. The locks make every
-- method one step; a handler is only handed on, so its type is a parameter. Reply channels are
-- addresses: a map entry can be overwritten or deleted while its Request still waits on the channel.
-- `to_upper` is strings.ToUpper; each fresh identifier and reading of the clock is an argument.
pub mod Calls
pub mod Owners
pub mod Routing
pub mod View
pub mod Delivery
pub mod Waiting
pub mod Replies
pub mod Hops
pub mod Onward
pub mod Cancelling
pub mod Stopping
use grimlocker_public.Base.{
  ℕ, zero, suc, ◌+◌, ◌-◌, Bool, true, false, not, ◌&&◌, List, [], ◌∷◌, ◌++◌, Option, none, some,
  length, get_or, set, bytes_eq, ◌==◌, if◌then◌else◌,
}
use grimlocker_public.Base.Int.{ℤ, pos, negsuc}
use grimlocker_public.Base.Dict.{Key, Dict, lookup, insert, erase}
use grimlocker_public.Kernel.Event.{Event, EventType, channel}

-- What the bus uses of the interface Module.
pub record Module (H : Type 0) : Type 0 where
  pub id : Key
  pub channels : List Key
  pub handle : H

pub record NamedHandler (H : Type 0) : Type 0 where
  pub id : Key
  pub handler : H

abbrev pub Table : Type 0 → Type 0
Table H = Dict (List (NamedHandler H))

pub record Bus (H : Type 0) : Type 0 where
  pub modules : Dict (Module H)
  pub channel_handlers : Table H
  pub type_handlers : Table H
  pub pending : Dict ℕ
  pub reply_channels : List (Option Event)
  pub gated_channels : Dict Bool
  pub gate_open : Bool
  pub is_cancelled : Bool

-- What a Request may return.
pub data RequestResult : Type 0 where
  replied : Event → RequestResult
  timed_out : RequestResult
  bus_shut_down : RequestResult

abbrev pub default_ttl : ℕ
default_ttl = 8

-- The start of Dispatch: the event as it goes on, unless its TTL is negative.
unfoldable pub hop : ℕ → Event → Option Event
hop now e = elim e.ttl [
  | negsuc _ ↦ none
  | pos n ↦ some (record e {
    ttl = pos ((if n == 0 then default_ttl else n) - 1);
    timestamp = if e.timestamp == 0 then now else e.timestamp;
  })
]

unfoldable pub new_event : Key → ℕ → List ℕ → EventType → List ℕ → Event
new_event fresh now origin t payload = record {
  id = fresh;
  event_type = t;
  payload = payload;
  reply_to = [];
  origin = origin;
  timestamp = now;
  ttl = pos default_ttl;
}

unfoldable pub reply_event : Key → ℕ → List ℕ → EventType → Event → List ℕ → Event
reply_event fresh now origin t req payload = record (new_event fresh now origin t payload) {
  reply_to = req.id;
}

-- `ch <- e` on a channel of capacity 1, unless it is full.
abbrev pub offer : ℕ → Event → List (Option Event) → List (Option Event)
offer addr e cs = elim (get_or cs addr none) [ none ↦ set cs addr (some e) | some _ ↦ cs ]

-- The option WithGatedChannels.
abbrev pub gate_all : (List ℕ → List ℕ) → List Key → Dict Bool
gate_all to_upper [] = []
gate_all to_upper (c ∷ cs) = insert (to_upper c) true (gate_all to_upper cs)

module _ {H : Type 0} where
  -- `table[k]`, which is nil for a key that is not there.
  abbrev pub handlers_at : Key → Table H → List (NamedHandler H)
  handlers_at k t = elim (lookup k t) [ none ↦ [] | some hs ↦ hs ]

  -- The loop that keeps the handlers with another identifier.
  abbrev pub without : Key → List (NamedHandler H) → List (NamedHandler H)
  without id [] = []
  without id (h ∷ hs) = let rest = without id hs in if bytes_eq h.id id then rest else h ∷ rest

  unfoldable pub open_gate : Bus H → Bus H
  open_gate b = record b { gate_open = true }

  unfoldable pub close_gate : Bus H → Bus H
  close_gate b = record b { gate_open = false }

  -- Subscribe, which panics (`none`) without a handler.
  unfoldable pub subscribe : Key → EventType → Option H → Bus H → Option (Bus H)
  subscribe id t none b = none
  subscribe id t (some h) b = some (record b {
    type_handlers =
        insert t (handlers_at t b.type_handlers ++ record { id = id; handler = h } ∷ [])
          b.type_handlers;
  })

  -- The function that Subscribe returns.
  unfoldable pub unsubscribe : Key → EventType → Bus H → Bus H
  unsubscribe id t b = record b {
    type_handlers = insert t (without id (handlers_at t b.type_handlers)) b.type_handlers;
  }

  unfoldable pub signal : Event → Bus H → Bus H
  signal e b = if bytes_eq e.reply_to [] then b else elim (lookup e.reply_to b.pending) [
    | none ↦ b
    | some addr ↦ record b { reply_channels = offer addr e b.reply_channels }
  ]

  abbrev pub is_gated : Key → Bus H → Bool
  is_gated c b = elim (lookup c b.gated_channels) [ none ↦ false | some g ↦ g ]

  -- One goroutine for each handler, with the event that it gets.
  abbrev pub send : Event → List (NamedHandler H) → List (H × Event)
  send e [] = []
  send e (h ∷ hs) = (h.handler, e) ∷ send e hs

  -- Dispatch after the hop.
  unfoldable pub route : Event → Bus H → List (H × Event)
  route e b =
      let c = channel e.event_type in
      if is_gated c b && not b.gate_open
      then []
      else send e (handlers_at c b.channel_handlers ++ handlers_at e.event_type b.type_handlers)

  unfoldable pub dispatch : ℕ → Event → Bus H → Bus H × List (H × Event)
  dispatch now e b = elim (hop now e) [
    | none ↦ (b, [])
    | some e' ↦ let b' = signal e' b in (b', route e' b')
  ]

  -- The first half of Request: the event with its identifier, and its reply channel.
  unfoldable pub begin_request : Key → Event → Bus H → Event × ℕ × Bus H
  begin_request fresh e b =
      let e' = if bytes_eq e.id [] then record e { id = fresh } else e in
      let addr = length b.reply_channels in
      (
        e',
        addr,
        record b {
          pending = insert e'.id addr b.pending;
          reply_channels = b.reply_channels ++ none ∷ [];
        },
      )

  -- What the `select` may choose when the caller's context is done or not.
  unfoldable pub ready_results : ℕ → Bool → Bus H → List RequestResult
  ready_results addr is_done b =
      let reply : List RequestResult = elim (get_or b.reply_channels addr none) [
        | none ↦ []
        | some e ↦ replied e ∷ []
      ] in
      reply
      ++ ((if is_done then timed_out ∷ [] else [])
          ++ (if b.is_cancelled then bus_shut_down ∷ [] else []))

  -- The deferred end of Request.
  unfoldable pub end_request : Key → Bus H → Bus H
  end_request id b = record b { pending = erase id b.pending }

  -- Shutdown, once the modules have been stopped or the context is done.
  unfoldable pub shutdown : Bus H → Bus H
  shutdown b = record b { is_cancelled = true }

module _ {H : Type 0} (to_upper : List ℕ → List ℕ) where
  -- NewBus
  unfoldable pub new_bus : List Key → Bus H
  new_bus gated = record {
    modules = [];
    channel_handlers = [];
    type_handlers = [];
    pending = [];
    reply_channels = [];
    gated_channels = gate_all to_upper gated;
    gate_open = false;
    is_cancelled = false;
  }

  -- The loops over the channels of a module.
  abbrev pub add_channels : NamedHandler H → List Key → Table H → Table H
  add_channels h [] t = t
  add_channels h (ch ∷ chs) t =
      let c = to_upper ch in add_channels h chs (insert c (handlers_at c t ++ h ∷ []) t)

  abbrev pub remove_channels : Key → List Key → Table H → Table H
  remove_channels id [] t = t
  remove_channels id (ch ∷ chs) t =
      let c = to_upper ch in remove_channels id chs (insert c (without id (handlers_at c t)) t)

  -- Register; the Boolean tells whether there is no error.
  unfoldable pub register : Module H → Bus H → Bool × Bus H
  register m b = elim (lookup m.id b.modules) [
    | some _ ↦ (false, b)
    | none ↦ (
      true,
      record b {
        modules = insert m.id m b.modules;
        channel_handlers =
            add_channels (record { id = m.id; handler = m.handle }) m.channels b.channel_handlers;
      },
    )
  ]

  unfoldable pub unregister : Key → Bus H → Bus H
  unregister id b = elim (lookup id b.modules) [
    | none ↦ b
    | some m ↦ record b {
      modules = erase id b.modules;
      channel_handlers = remove_channels id m.channels b.channel_handlers;
    }
  ]
