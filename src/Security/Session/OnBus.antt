-- ===== src/Security/Session/OnBus.antt =====
-- The session of engine/security/session.go with the bus of engine/kernel/bus.go as its dispatcher: the
-- events that Unlock and Lock dispatch, and who gets them. The identifier and the payload of an event,
-- a JSON text, are arguments; `none` stands for no dispatched event.
use grimlocker_public.Base.{
  ◌≡◌, refl, ap, ◌∙◌, ℕ, zero, suc, Bool, true, false, ◌&&◌, List, [], ◌++◌, some, if◌then◌else◌,
}
use grimlocker_public.Base.Int.{pos}
use grimlocker_public.Base.Dict.{Key}
use grimlocker_public.Gql.Opcodes.{codes}
use grimlocker_public.Kernel.Event.{Event, EventType}
use grimlocker_public.Kernel.Event.Channel.{before_dot}
use grimlocker_public.Kernel.Bus.{Bus, new_bus, new_event, dispatch}
use grimlocker_public.Kernel.Bus.Calls.{Call, run}
use grimlocker_public.Kernel.Bus.Owners.{mentions, owners}
use grimlocker_public.Kernel.Bus.Onward.{onward, time_sent, each_gets}
use grimlocker_public.Kernel.Bus.View.{view_run, no_view, of_type}
use grimlocker_public.Kernel.Bus.Delivery.{deliveries, dispatch-run}
use grimlocker_public.Security.Session.{SessionContext, unlock, lock}

-- A session, its bus, and who was handed what.
pub record Published (H : Type 0) : Type 0 where
  pub session : SessionContext
  pub bus : Bus H
  pub handed : List (H × Event)

-- `s.dispatcher.Dispatch(ev)` when `goes` is so.
abbrev pub publish :
    {H : Type 0} → Bool → Key → ℕ → EventType → List ℕ → SessionContext → Bus H → Published H
publish goes fresh now t payload s b =
    let sent = dispatch now (new_event fresh now (codes "session") t payload) b in
    if goes
    then record { session = s; bus = sent.0; handed = sent.1 }
    else record { session = s; bus = b; handed = [] }

module _ {H : Type 0} where
  unfoldable pub unlock_on_bus : Key → ℕ → List ℕ → List ℕ → SessionContext → Bus H → Published H
  unlock_on_bus fresh now payload handle s b =
      publish s.has_dispatcher fresh now (codes "AUTH.READY") payload (unlock now handle s) b

  unfoldable pub lock_on_bus : Key → ℕ → List ℕ → SessionContext → Bus H → Published H
  lock_on_bus fresh now payload s b =
      publish (s.active && s.has_dispatcher) fresh now (codes "AUTH.LOGOUT") payload (lock s) b

-- The event as the bus hands it on.
abbrev pub handed_on : Key → ℕ → EventType → List ℕ → Event
handed_on fresh now t payload = record (new_event fresh now (codes "session") t payload) {
  ttl = pos 7;
}

time_sent_now : (now : ℕ) → time_sent now now ≡ now
time_sent_now zero = refl
time_sent_now (suc t) = refl

onward-new_event :
    (fresh : Key) (now : ℕ) (t : EventType) (payload : List ℕ)
    → onward now (new_event fresh now (codes "session") t payload)
      ≡ some (handed_on fresh now t payload)
unfolding onward new_event
onward-new_event fresh now t payload =
    ap (λ at. some (record (handed_on fresh now t payload) { timestamp = at })) (time_sent_now now)

ready : before_dot (codes "AUTH.READY") ≡ codes "AUTH"
unfolding before_dot
ready = refl

logout : before_dot (codes "AUTH.LOGOUT") ≡ codes "AUTH"
unfolding before_dot
logout = refl

module _ {H : Type 0} (to_upper : List ℕ → List ℕ) where
  dispatched_auth :
      (gated : List Key) (cs : List (Call H)) (fresh : Key) (now : ℕ) (t : EventType)
      (payload : List ℕ)
      → before_dot t ≡ codes "AUTH"
      → mentions to_upper (codes "AUTH") gated ≡ false
      → let v = view_run no_view cs in
        (dispatch now
          (new_event fresh now (codes "session") t payload)
          (run to_upper (new_bus to_upper gated) cs)).1
        ≡ each_gets
            (handed_on fresh now t payload)
            (owners to_upper (codes "AUTH") v.registered ++ of_type t v.subscriptions)
  unfolding deliveries new_event
  dispatched_auth gated cs fresh now t payload c free =
      let on_auth : before_dot ((handed_on fresh now t payload).event_type) ≡ codes "AUTH" = c in
      dispatch-run to_upper gated cs now (new_event fresh now (codes "session") t payload)
      ∙ rw (deliveries, onward-new_event fresh now t payload, on_auth, free) refl

  -- After any calls on a new bus whose AUTH channel is not gated: unlocking a session with the bus as its
  -- dispatcher hands AUTH.READY, and locking one that is active hands AUTH.LOGOUT, to the modules
  -- that own AUTH and to the subscribers of that type, with 7 hops left.
  pub on_bus-run :
      (gated : List Key) (cs : List (Call H)) (fresh : Key) (now : ℕ) (payload handle : List ℕ)
      (s : SessionContext)
      → s.has_dispatcher ≡ true
      → s.active ≡ true
      → mentions to_upper (codes "AUTH") gated ≡ false
      → let b = run to_upper (new_bus to_upper gated) cs in
        let v = view_run no_view cs in
        let auth = owners to_upper (codes "AUTH") v.registered in
        ((unlock_on_bus fresh now payload handle s b).handed
          ≡ each_gets
              (handed_on fresh now (codes "AUTH.READY") payload)
              (auth ++ of_type (codes "AUTH.READY") v.subscriptions))
        × ((lock_on_bus fresh now payload s b).handed
            ≡ each_gets
                (handed_on fresh now (codes "AUTH.LOGOUT") payload)
                (auth ++ of_type (codes "AUTH.LOGOUT") v.subscriptions))
  unfolding unlock_on_bus lock_on_bus
  on_bus-run gated cs fresh now payload handle s d on free = (
    rw (unlock_on_bus, d)
        (dispatched_auth gated cs fresh now (codes "AUTH.READY") payload ready free),
    rw (lock_on_bus, on, d)
        (dispatched_auth gated cs fresh now (codes "AUTH.LOGOUT") payload logout free),
  )
