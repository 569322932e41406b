-- ===== src/Kernel/Bus/Delivery.antt =====
-- Whom Dispatch of engine/kernel/bus.go hands an event, by the view of the calls before it.
use grimlocker_public.Base.{
  ◌≡◌, refl, sym, ap, ◌∙◌, true, false, not, ◌&&◌, List, [], ◌∷◌, ◌++◌, ℕ, none, some, arith,
  bytes_eq, if◌then◌else◌, Bool-cases, Option-cases, inl, inr,
}
use grimlocker_public.Base.Dict.{Key, Dict, lookup, erase, lookup-insert}
use grimlocker_public.Base.Dict.Distinct.{erase_absent}
use grimlocker_public.Kernel.Event.{Event, EventType}
use grimlocker_public.Kernel.Event.Channel.{before_dot, channel_bytes}
use grimlocker_public.Kernel.Bus.{
  Module, Bus, handlers_at, new_bus, register, unregister, gate_all, route, subscribe, unsubscribe,
  open_gate, close_gate, hop, signal, dispatch, begin_request, end_request, shutdown,
}
use grimlocker_public.Kernel.Bus.Calls.{
  Call, registers, unregisters, subscribes, unsubscribes, opens_gate, closes_gate, dispatches,
  begins, ends, shuts_down, step, run,
}
use grimlocker_public.Kernel.Bus.Owners.{mentions, owners}
use grimlocker_public.Kernel.Bus.Routing.{IsRouted, run-new_bus-IsRouted}
use grimlocker_public.Kernel.Bus.Onward.{onward, each_gets, hop-onward, send-each_gets}
use grimlocker_public.Kernel.Bus.View.{
  View, of_type, add_module, view_step, view_run, no_view, types_subscribed, types_unsubscribed,
}

lookup-gate_all :
    (to_upper : List ℕ → List ℕ) (c : Key) (gated : List Key)
    → (elim (lookup c (gate_all to_upper gated)) [ none ↦ false | some g ↦ g ])
      ≡ mentions to_upper c gated
lookup-gate_all to_upper c [] = refl
lookup-gate_all to_upper c (g ∷ gs) =
    ground (
      arith,
      lookup-gate_all to_upper c gs,
      lookup-insert (to_upper g) c true (gate_all to_upper gs),
    )

module _ {H : Type 0} (to_upper : List ℕ → List ℕ) where
  -- Who gets an event, and what it is by then: nobody when its TTL is negative or its channel is gated
  -- and the gate is shut.
  unfoldable pub deliveries : List Key → View H → ℕ → Event → List (H × Event)
  deliveries gated v now e = elim (onward now e) [
    | none ↦ []
    | some e' ↦
        let c = before_dot e'.event_type in
        if mentions to_upper c gated && not v.is_open
        then []
        else each_gets e' (owners to_upper c v.registered ++ of_type e'.event_type v.subscriptions)
  ]

  -- A bus and its view.
  record Shows (gated : List Key) (b : Bus H) (v : View H) : Type 0 where
    same_modules : b.modules ≡ v.registered
    same_types : (t : EventType) → handlers_at t b.type_handlers ≡ of_type t v.subscriptions
    same_gate : b.gate_open ≡ v.is_open
    same_gated : b.gated_channels ≡ gate_all to_upper gated

  same_tables :
      (gated : List Key) (b b' : Bus H) (v : View H)
      → b'.type_handlers ≡ b.type_handlers
      → b'.gate_open ≡ b.gate_open
      → b'.gated_channels ≡ b.gated_channels
      → (ms : Dict (Module H)) → b'.modules ≡ ms
      → Shows gated b v
      → Shows gated b' (record v { registered = ms })
  same_tables gated b b' v t g gs ms m s = record {
    same_modules = m;
    same_types = λ u. rw t (s.same_types u);
    same_gate = g ∙ s.same_gate;
    same_gated = gs ∙ s.same_gated;
  }

  modules-register :
      (m : Module H) (b : Bus H) → (register to_upper m b).1.modules ≡ add_module m b.modules
  unfolding register
  modules-register m b = ground arith

  modules-unregister :
      (id : Key) (b : Bus H) → (unregister to_upper id b).modules ≡ erase id b.modules
  unfolding unregister
  modules-unregister id b = elim (Option-cases (lookup id b.modules)) [
    | inl unknown ↦ rw (unknown, unregister) (sym (erase_absent id b.modules unknown))
    | inr (m, found) ↦ rw (found, unregister) refl
  ]

  register-Shows :
      (gated : List Key) (m : Module H) (b : Bus H) (v : View H)
      → Shows gated b v
      → Shows gated (register to_upper m b).1 (view_step v (registers m))
  unfolding register
  register-Shows gated m b v s =
      same_tables gated b _ v (ground arith) (ground arith) (ground arith) _
        (modules-register m b ∙ ap (add_module m) s.same_modules) s

  step-Shows :
      (gated : List Key) (c : Call H) (b : Bus H) (v : View H)
      → Shows gated b v
      → Shows gated (step to_upper b c) (view_step v c)
  unfolding step register unregister subscribe unsubscribe open_gate close_gate dispatch hop signal
      begin_request end_request shutdown
  step-Shows gated (registers m) b v s =
      same_tables gated b _ v (ground arith) (ground arith) (ground arith) _
        (modules-register m b ∙ ap (add_module m) s.same_modules) s
  step-Shows gated (unregisters id) b v s =
      same_tables gated b _ v (ground arith) (ground arith) (ground arith) _
        (modules-unregister id b ∙ ap (erase id) s.same_modules) s
  step-Shows gated (subscribes id t none) b v s = s
  step-Shows gated (subscribes id t (some h)) b v s = record {
    same_modules = s.same_modules;
    same_types =
        λ u. types_subscribed t u (record { id = id; handler = h }) b v.subscriptions s.same_types;
    same_gate = s.same_gate;
    same_gated = s.same_gated;
  }
  step-Shows gated (unsubscribes id t) b v s = record {
    same_modules = s.same_modules;
    same_types = λ u. types_unsubscribed id t u b v.subscriptions s.same_types;
    same_gate = s.same_gate;
    same_gated = s.same_gated;
  }
  step-Shows gated opens_gate b v s = record {
    same_modules = s.same_modules;
    same_types = s.same_types;
    same_gate = refl;
    same_gated = s.same_gated;
  }
  step-Shows gated closes_gate b v s = record {
    same_modules = s.same_modules;
    same_types = s.same_types;
    same_gate = refl;
    same_gated = s.same_gated;
  }
  step-Shows gated (dispatches now e) b v s =
      same_tables gated b _ v (ground arith) (ground arith) (ground arith) _
        (ground (arith, s.same_modules)) s
  step-Shows gated (begins fresh e) b v s =
      same_tables gated b _ v refl refl refl _ s.same_modules s
  step-Shows gated (ends id) b v s = same_tables gated b _ v refl refl refl _ s.same_modules s
  step-Shows gated shuts_down b v s = same_tables gated b _ v refl refl refl _ s.same_modules s

  run-Shows :
      (gated : List Key) (cs : List (Call H)) (b : Bus H) (v : View H)
      → Shows gated b v
      → Shows gated (run to_upper b cs) (view_run v cs)
  unfolding run view_run
  run-Shows gated [] b v s = s
  run-Shows gated (c ∷ cs) b v s =
      run-Shows gated cs (step to_upper b c) (view_step v c) (step-Shows gated c b v s)

  new_bus-Shows : (gated : List Key) → Shows gated (new_bus to_upper gated) no_view
  unfolding new_bus
  new_bus-Shows gated = record {
    same_modules = refl;
    same_types = λ t. refl;
    same_gate = refl;
    same_gated = refl;
  }

  route-signal : (e : Event) (b : Bus H) → route e (signal e b) ≡ route e b
  unfolding route signal
  route-signal e b = elim (Bool-cases (bytes_eq e.reply_to [])) [
    | inl none_waits ↦ rw none_waits refl
    | inr replies ↦ elim (Option-cases (lookup e.reply_to b.pending)) [
      | inl unknown ↦ rw (replies, unknown) refl
      | inr (addr, found) ↦ rw (replies, found) refl
    ]
  ]

  route-Shows :
      (gated : List Key) (b : Bus H) (v : View H) (e : Event)
      → IsRouted to_upper b
      → Shows gated b v
      → route e b ≡ (
          if mentions to_upper (before_dot e.event_type) gated && not v.is_open
          then []
          else each_gets e (
              owners to_upper (before_dot e.event_type) v.registered
              ++ of_type e.event_type v.subscriptions))
  unfolding route
  route-Shows gated b v e r s =
      let c = before_dot e.event_type in
      rw
        (
          channel_bytes e.event_type,
          s.same_gated,
          lookup-gate_all to_upper c gated,
          s.same_gate,
          r.routed c,
          s.same_modules,
          s.same_types e.event_type,
          send-each_gets e (owners to_upper c v.registered ++ of_type e.event_type v.subscriptions),
        )
        refl

  -- Calls change who gets an event only as they change the view: after any calls on a new bus,
  -- Dispatch hands an event to the handlers of the registered modules that own its channel, which is
  -- its type up to the first dot, in the order of registration, and then to the subscribers of its
  -- type, but to nobody if its TTL is negative or its channel is gated while the gate is shut. The
  -- event goes on with a TTL that is one less, or 7 for one of 0, and with the time of the call if it
  -- had none.
  pub dispatch-run :
      (gated : List Key) (cs : List (Call H)) (now : ℕ) (e : Event)
      → (dispatch now e (run to_upper (new_bus to_upper gated) cs)).1
        ≡ deliveries gated (view_run no_view cs) now e
  unfolding dispatch deliveries
  dispatch-run gated cs now e =
      let b = run to_upper (new_bus to_upper gated) cs in
      let shows = run-Shows gated cs _ no_view (new_bus-Shows gated) in
      let same = hop-onward now e in
      elim (Option-cases (onward now e)) [
        | inl expired ↦ rw (same, expired, dispatch, deliveries) refl
        | inr (e', goes_on) ↦
            rw (same, goes_on, dispatch, deliveries)
              (route-signal e' b
                ∙ route-Shows gated b (view_run no_view cs) e'
                    (run-new_bus-IsRouted to_upper gated cs) shows)
      ]
