-- ===== src/Kernel/Bus/Cancelling.antt =====
-- Whether the bus of engine/kernel/bus.go has been shut down, by the calls before.
use grimlocker_public.Base.{
  ◌≡◌, ap, ◌∙◌, Bool, true, false, ◌||◌, List, [], ◌∷◌, ℕ, none, some, arith,
}
use grimlocker_public.Base.Dict.{Key}
use grimlocker_public.Kernel.Event.{Event}
use grimlocker_public.Kernel.Bus.{
  Bus, new_bus, register, unregister, subscribe, unsubscribe, open_gate, close_gate, signal,
  dispatch, begin_request, end_request, shutdown,
}
use grimlocker_public.Kernel.Bus.Calls.{
  Call, registers, unregisters, subscribes, unsubscribes, opens_gate, closes_gate, dispatches,
  begins, ends, shuts_down, step, run,
}

module _ {H : Type 0} where
  abbrev pub is_shutdown : Call H → Bool
  is_shutdown shuts_down = true
  is_shutdown _ = false

  -- Whether some call is a Shutdown.
  abbrev pub was_shut_down : List (Call H) → Bool
  was_shut_down [] = false
  was_shut_down (c ∷ cs) = is_shutdown c || was_shut_down cs

module _ {H : Type 0} (to_upper : List ℕ → List ℕ) where
  is_cancelled-step :
      (b : Bus H) (c : Call H)
      → (step to_upper b c).is_cancelled ≡ (b.is_cancelled || is_shutdown c)
  unfolding step register unregister subscribe unsubscribe open_gate close_gate dispatch signal
      begin_request end_request shutdown
  is_cancelled-step b (registers m) = ground arith
  is_cancelled-step b (unregisters k) = ground arith
  is_cancelled-step b (subscribes k t none) = ground arith
  is_cancelled-step b (subscribes k t (some h)) = ground arith
  is_cancelled-step b (unsubscribes k t) = ground arith
  is_cancelled-step b opens_gate = ground arith
  is_cancelled-step b closes_gate = ground arith
  is_cancelled-step b (dispatches now e) = ground arith
  is_cancelled-step b (begins fresh e) = ground arith
  is_cancelled-step b (ends k) = ground arith
  is_cancelled-step b shuts_down = ground arith

  pub is_cancelled-run :
      (cs : List (Call H)) (b : Bus H)
      → (run to_upper b cs).is_cancelled ≡ (b.is_cancelled || was_shut_down cs)
  unfolding run
  is_cancelled-run [] b = ground arith
  is_cancelled-run (c ∷ cs) b =
      ground (arith, is_cancelled-run cs (step to_upper b c), is_cancelled-step b c)

  is_cancelled-begin_request :
      (fresh : Key) (e : Event) (b : Bus H)
      → (begin_request fresh e b).2.is_cancelled ≡ b.is_cancelled
  unfolding begin_request
  is_cancelled-begin_request fresh e b = ground arith

  -- After any calls on a new bus, a Request that begins, and further calls.
  pub is_cancelled-new_bus :
      (gated : List Key) (before after : List (Call H)) (fresh : Key) (e : Event)
      → let b = run to_upper (new_bus to_upper gated) before in
        (run to_upper (begin_request fresh e b).2 after).is_cancelled
        ≡ (was_shut_down before || was_shut_down after)
  unfolding new_bus
  is_cancelled-new_bus gated before after fresh e =
      let b = run to_upper (new_bus to_upper gated) before in
      is_cancelled-run after (begin_request fresh e b).2
      ∙ ap (λ x. x || was_shut_down after)
          (is_cancelled-begin_request fresh e b ∙ is_cancelled-run before (new_bus to_upper gated))
