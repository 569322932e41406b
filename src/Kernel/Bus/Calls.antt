-- ===== src/Kernel/Bus/Calls.antt =====
-- The calls that reach the bus of engine/kernel/bus.go, one step each.
use grimlocker_public.Base.{ℕ, List, [], ◌∷◌, Option, none, some}
use grimlocker_public.Base.Dict.{Key}
use grimlocker_public.Kernel.Event.{Event, EventType}
use grimlocker_public.Kernel.Bus.{
  Module, Bus, register, unregister, subscribe, unsubscribe, open_gate, close_gate, dispatch,
  begin_request, end_request, shutdown,
}

-- The calls that a bus serves, in the order of their steps.
pub data Call (H : Type 0) : Type 0 where
  registers : Module H → Call H
  unregisters : Key → Call H
  subscribes : Key → EventType → Option H → Call H
  unsubscribes : Key → EventType → Call H
  opens_gate : Call H
  closes_gate : Call H
  dispatches : ℕ → Event → Call H
  begins : Key → Event → Call H
  ends : Key → Call H
  shuts_down : Call H

module _ {H : Type 0} (to_upper : List ℕ → List ℕ) where
  unfoldable pub step : Bus H → Call H → Bus H
  step b (registers m) = (register to_upper m b).1
  step b (unregisters id) = unregister to_upper id b
  step b (subscribes id t h) = elim (subscribe id t h b) [ none ↦ b | some b' ↦ b' ]
  step b (unsubscribes id t) = unsubscribe id t b
  step b opens_gate = open_gate b
  step b closes_gate = close_gate b
  step b (dispatches now e) = (dispatch now e b).0
  step b (begins fresh e) = (begin_request fresh e b).2
  step b (ends id) = end_request id b
  step b shuts_down = shutdown b

  unfoldable pub run : Bus H → List (Call H) → Bus H
  run b [] = b
  run b (c ∷ cs) = run (step b c) cs
