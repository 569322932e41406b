-- ===== src/Kernel/Bus/Replies.antt =====
-- Request of engine/kernel/bus.go: the reply that reaches its channel while other calls go on.
use grimlocker_public.Base.{
  ◌≡◌, refl, sym, ap, ◌∙◌, Bool, ◌||◌, List, [], ◌∷◌, ℕ, none, some, arith, Option-cases, inl, inr,
  get_or, length, All, get_or-append, get_or-snoc, length-append,
}
use grimlocker_public.Base.Dict.{Key, lookup, lookup-insert, lookup-erase, bytes_eq_iff}
use grimlocker_public.Kernel.Event.{Event}
use grimlocker_public.Kernel.Bus.{
  Module, Bus, new_bus, register, unregister, ready_results, subscribe, unsubscribe, open_gate,
  close_gate, hop, signal, dispatch, begin_request, end_request, shutdown,
}
use grimlocker_public.Kernel.Bus.Calls.{
  Call, registers, unregisters, subscribes, unsubscribes, opens_gate, closes_gate, dispatches,
  begins, ends, shuts_down, step, run,
}
use grimlocker_public.Kernel.Bus.Cancelling.{was_shut_down, is_cancelled-new_bus}
use grimlocker_public.Kernel.Bus.Waiting.{
  unchanged-Waits, length-signal, pending-signal, received-dispatch, pending-begin_request,
  begin_request-Waits, end_request-Waits, first_of_assoc, first_of-none, first_of, IsAddressed,
  Waits, received, Spares, answer, first_reply, request_id, may_return,
}

module _ {H : Type 0} (to_upper : List ℕ → List ℕ) where
  channels-register :
      (m : Module H) (b : Bus H) → (register to_upper m b).1.reply_channels ≡ b.reply_channels
  unfolding register
  channels-register m b = ground arith

  channels-unregister :
      (k : Key) (b : Bus H) → (unregister to_upper k b).reply_channels ≡ b.reply_channels
  unfolding unregister
  channels-unregister k b = ground arith

  step-Waits :
      (id : Key) (addr : ℕ) (b : Bus H) (c : Call H)
      → Waits id addr b
      → Spares id c
      → Waits id addr (step to_upper b c)
  unfolding step register unregister subscribe unsubscribe open_gate close_gate dispatch shutdown
  step-Waits id addr b (registers m) w h =
      unchanged-Waits id addr b _ (ground arith) (ground arith) w
  step-Waits id addr b (unregisters k) w h =
      unchanged-Waits id addr b _ (ground arith) (ground arith) w
  step-Waits id addr b (subscribes k t none) w h = w
  step-Waits id addr b (subscribes k t (some x)) w h = unchanged-Waits id addr b _ refl refl w
  step-Waits id addr b (unsubscribes k t) w h = unchanged-Waits id addr b _ refl refl w
  step-Waits id addr b opens_gate w h = unchanged-Waits id addr b _ refl refl w
  step-Waits id addr b closes_gate w h = unchanged-Waits id addr b _ refl refl w
  step-Waits id addr b (dispatches now e) w h = elim (Option-cases (hop now e)) [
    | inl expired ↦ rw (step, dispatch, expired) w
    | inr (e', goes_on) ↦
        rw (step, dispatch, goes_on)
          (unchanged-Waits id addr b (signal e' b) (pending-signal e' b) (length-signal e' b) w)
  ]
  step-Waits id addr b (begins fresh e) w h = begin_request-Waits id addr fresh e b w h
  step-Waits id addr b (ends k) w h = end_request-Waits id addr k b w h
  step-Waits id addr b shuts_down w h = unchanged-Waits id addr b _ refl refl w

  received-step :
      (id : Key) (addr : ℕ) (b : Bus H) (c : Call H)
      → Waits id addr b
      → received addr (step to_upper b c) ≡ first_of (received addr b) (answer id c)
  unfolding step register unregister subscribe unsubscribe open_gate close_gate begin_request
      end_request shutdown
  received-step id addr b (registers m) w =
      ap (λ xs. get_or xs addr none) (channels-register m b) ∙ sym (first_of-none (received addr b))
  received-step id addr b (unregisters k) w =
      ap (λ xs. get_or xs addr none) (channels-unregister k b)
      ∙ sym (first_of-none (received addr b))
  received-step id addr b (subscribes k t none) w = sym (first_of-none (received addr b))
  received-step id addr b (subscribes k t (some x)) w = sym (first_of-none (received addr b))
  received-step id addr b (unsubscribes k t) w = sym (first_of-none (received addr b))
  received-step id addr b opens_gate w = sym (first_of-none (received addr b))
  received-step id addr b closes_gate w = sym (first_of-none (received addr b))
  received-step id addr b (dispatches now e) w = received-dispatch id addr now e b w
  received-step id addr b (begins fresh e) w =
      get_or-append b.reply_channels (none ∷ []) addr none w.allocated
      ∙ sym (first_of-none (received addr b))
  received-step id addr b (ends k) w = sym (first_of-none (received addr b))
  received-step id addr b shuts_down w = sym (first_of-none (received addr b))

  received-run :
      (id : Key) (addr : ℕ) (cs : List (Call H)) (b : Bus H)
      → Waits id addr b
      → All (Spares id) cs
      → received addr (run to_upper b cs) ≡ first_of (received addr b) (first_reply id cs)
  unfolding run first_reply
  received-run id addr [] b w h = sym (first_of-none (received addr b))
  received-run id addr (c ∷ cs) b w h =
      received-run id addr cs (step to_upper b c) (step-Waits id addr b c w h.0) h.1
      ∙ ap (λ p. first_of p (first_reply id cs)) (received-step id addr b c w)
      ∙ first_of_assoc (received addr b) (answer id c) (first_reply id cs)

  unchanged-IsAddressed :
      (b b' : Bus H)
      → b'.pending ≡ b.pending
      → length b'.reply_channels ≡ length b.reply_channels
      → IsAddressed b
      → IsAddressed b'
  unchanged-IsAddressed b b' e f v = record { in_range = rw (e, f) v.in_range }

  begin_request-IsAddressed :
      (fresh : Key) (e : Event) (b : Bus H)
      → IsAddressed b
      → IsAddressed (begin_request fresh e b).2
  unfolding begin_request
  begin_request-IsAddressed fresh e b v =
      let k = request_id fresh e in
      let n = length b.reply_channels in
      record {
        in_range = λ j a found.
            let q =
              sym (lookup-insert k j n b.pending)
              ∙ sym (ap (lookup j) (pending-begin_request fresh e b))
              ∙ found in
            ground (arith, v.in_range j a, length-append b.reply_channels (none ∷ []));
      }

  step-IsAddressed : (b : Bus H) (c : Call H) → IsAddressed b → IsAddressed (step to_upper b c)
  unfolding step register unregister subscribe unsubscribe open_gate close_gate dispatch end_request
      shutdown
  step-IsAddressed b (registers m) v = unchanged-IsAddressed b _ (ground arith) (ground arith) v
  step-IsAddressed b (unregisters k) v = unchanged-IsAddressed b _ (ground arith) (ground arith) v
  step-IsAddressed b (subscribes k t none) v = v
  step-IsAddressed b (subscribes k t (some x)) v = unchanged-IsAddressed b _ refl refl v
  step-IsAddressed b (unsubscribes k t) v = unchanged-IsAddressed b _ refl refl v
  step-IsAddressed b opens_gate v = unchanged-IsAddressed b _ refl refl v
  step-IsAddressed b closes_gate v = unchanged-IsAddressed b _ refl refl v
  step-IsAddressed b (dispatches now e) v = elim (Option-cases (hop now e)) [
    | inl expired ↦ rw (step, dispatch, expired) v
    | inr (e', goes_on) ↦
        rw (step, dispatch, goes_on)
          (unchanged-IsAddressed b (signal e' b) (pending-signal e' b) (length-signal e' b) v)
  ]
  step-IsAddressed b (begins fresh e) v = begin_request-IsAddressed fresh e b v
  step-IsAddressed b (ends k) v = record {
    in_range = λ j a found. v.in_range j a (ground (arith, lookup-erase k j b.pending));
  }
  step-IsAddressed b shuts_down v = unchanged-IsAddressed b _ refl refl v

  run-IsAddressed :
      (cs : List (Call H)) (b : Bus H) → IsAddressed b → IsAddressed (run to_upper b cs)
  unfolding run
  run-IsAddressed [] b v = v
  run-IsAddressed (c ∷ cs) b v = run-IsAddressed cs (step to_upper b c) (step-IsAddressed b c v)

  new_bus-IsAddressed : (gated : List Key) → IsAddressed {H = H} (new_bus to_upper gated)
  unfolding new_bus
  new_bus-IsAddressed gated = record { in_range = λ k a found. absurd (cc) }

  begin_request-Waits_new :
      (fresh : Key) (e : Event) (b : Bus H)
      → ¬ (request_id fresh e ≡ [])
      → IsAddressed b
      → Waits (request_id fresh e) (length b.reply_channels) (begin_request fresh e b).2
  unfolding begin_request
  begin_request-Waits_new fresh e b h v =
      let k = request_id fresh e in
      let n = length b.reply_channels in
      let p = pending-begin_request fresh e b in
      record {
        waiting =
            ap (lookup k) p ∙ lookup-insert k k n b.pending ∙ rw ((bytes_eq_iff k k).1 refl) refl;
        allocated = ground (arith, length-append b.reply_channels (none ∷ []));
        alone = λ j found.
            let q = sym (lookup-insert k j n b.pending) ∙ sym (ap (lookup j) p) ∙ found in
            ground (arith, v.in_range j n, bytes_eq_iff k j);
        named = h;
      }

  addr-begin_request :
      (fresh : Key) (e : Event) (b : Bus H) → (begin_request fresh e b).1 ≡ length b.reply_channels
  unfolding begin_request
  addr-begin_request fresh e b = refl

  received-begin_request :
      (fresh : Key) (e : Event) (b : Bus H)
      → received (length b.reply_channels) (begin_request fresh e b).2 ≡ none
  unfolding begin_request
  received-begin_request fresh e b = get_or-snoc b.reply_channels none none

  received-after :
      (fresh : Key) (e : Event) (after : List (Call H)) (b : Bus H)
      → IsAddressed b
      → ¬ (request_id fresh e ≡ [])
      → All (Spares (request_id fresh e)) after
      → received (length b.reply_channels) (run to_upper (begin_request fresh e b).2 after)
        ≡ first_reply (request_id fresh e) after
  received-after fresh e after b v h spared =
      let id = request_id fresh e in
      received-run id (length b.reply_channels) after (begin_request fresh e b).2
        (begin_request-Waits_new fresh e b h v) spared
      ∙ ap (λ p. first_of p (first_reply id after)) (received-begin_request fresh e b)

  -- After any calls on a new bus and then the start of a Request, and after any further calls that
  -- neither begin nor end a request of the same, non-empty identifier: the select of the Request
  -- can return the first event dispatched since with the identifier as its ReplyTo, if there is
  -- one, the end of the context, if it is done, and the shutdown, if one of the calls before or
  -- after the start is a Shutdown; nothing else.
  pub ready_results-run :
      (gated : List Key) (before after : List (Call H)) (fresh : Key) (e : Event) (is_done : Bool)
      → ¬ (request_id fresh e ≡ [])
      → All (Spares (request_id fresh e)) after
      → let b = run to_upper (new_bus to_upper gated) before in
        let req = begin_request fresh e b in
        ready_results req.1 is_done (run to_upper req.2 after)
        ≡ may_return
            (first_reply (request_id fresh e) after)
            is_done
            (was_shut_down before || was_shut_down after)
  unfolding ready_results
  ready_results-run gated before after fresh e is_done h spared =
      let b = run to_upper (new_bus to_upper gated) before in
      rw
        (
          addr-begin_request fresh e b,
          received-after fresh e after b (run-IsAddressed before _ (new_bus-IsAddressed gated)) h
              spared,
          is_cancelled-new_bus to_upper gated before after fresh e,
          ready_results,
          may_return,
        )
        refl
