-- ===== src/Kernel/Bus/Routing.antt =====
-- After any calls, the channels route to the registered modules.
use mathlib.Core.List.{append-nil, Nodup-nil}
use grimlocker_public.Base.{
  ◌≡◌, refl, sym, ap, ap₂, ◌∙◌, List, [], ◌∷◌, ◌++◌, ℕ, none, some, arith, All, All-append,
  Bool-cases, Option-cases, inl, inr,
}
use grimlocker_public.Base.Dict.{Key, lookup, erase}
use grimlocker_public.Base.Dict.Distinct.{
  Distinct, insert_new, insert-Distinct, erase-Distinct, erase-All,
}
use grimlocker_public.Kernel.Bus.{
  Module, Bus, handlers_at, without, add_channels, remove_channels, new_bus, register, unregister,
  subscribe, unsubscribe, open_gate, close_gate, hop, signal, dispatch, begin_request, end_request,
  shutdown,
}
use grimlocker_public.Kernel.Bus.Calls.{
  Call, registers, unregisters, subscribes, unsubscribes, opens_gate, closes_gate, dispatches,
  begins, ends, shuts_down, step, run,
}
use grimlocker_public.Kernel.Bus.Owners.{
  named, owners, owners-append, handlers_at-add_channels, mentions, handlers_at-remove_channels,
  Keyed, without-owners, owners_unmentioned,
}

module _ {H : Type 0} (to_upper : List ℕ → List ℕ) where
  pub record IsRouted (b : Bus H) : Type 0 where
    pub keyed : All Keyed b.modules
    pub distinct : Distinct b.modules
    pub routed : (c : Key) → handlers_at c b.channel_handlers ≡ owners to_upper c b.modules

  new_bus-IsRouted : (gated : List Key) → IsRouted (new_bus to_upper gated)
  unfolding new_bus owners
  new_bus-IsRouted gated = record { keyed = tt; distinct = Nodup-nil; routed = λ c. refl }

  owners_registered :
      (c : Key) (m : Module H) (b : Bus H)
      → IsRouted b
      → handlers_at c (add_channels to_upper (named m) m.channels b.channel_handlers)
        ≡ owners to_upper c (b.modules ++ (m.id, m) ∷ [])
  unfolding owners
  owners_registered c m b v =
      handlers_at-add_channels to_upper c (named m) m.channels b.channel_handlers
      ∙ ap₂ ◌++◌ (v.routed c) (sym (append-nil _))
      ∙ sym (owners-append to_upper c b.modules ((m.id, m) ∷ []))

  register-IsRouted : (m : Module H) (b : Bus H) → IsRouted b → IsRouted (register to_upper m b).1
  unfolding register
  register-IsRouted m b v = elim (Option-cases (lookup m.id b.modules)) [
    | inr (n, taken) ↦ rw (taken, register) v
    | inl free ↦
        let e = insert_new m.id m b.modules free in
        rw (free, register)
          (record {
            keyed = rw e (All-append Keyed b.modules ((m.id, m) ∷ []) v.keyed (refl, tt));
            distinct = insert-Distinct m.id m b.modules v.distinct;
            routed = λ c. owners_registered c m b v ∙ sym (ap (owners to_upper c) e);
          })
  ]

  owners_left :
      (c id : Key) (m : Module H) (b : Bus H)
      → IsRouted b
      → lookup id b.modules ≡ some m
      → handlers_at c (remove_channels to_upper id m.channels b.channel_handlers)
        ≡ owners to_upper c (erase id b.modules)
  owners_left c id m b v found =
      handlers_at-remove_channels to_upper c id m.channels b.channel_handlers
      ∙ elim (Bool-cases (mentions to_upper c m.channels)) [
        | inl has ↦
            rw has (ap (without id) (v.routed c) ∙ without-owners to_upper id c b.modules v.keyed)
        | inr lacks ↦
            rw lacks (
              v.routed c
              ∙ sym (owners_unmentioned to_upper id c b.modules m v.distinct found lacks))
      ]

  unregister-IsRouted : (id : Key) (b : Bus H) → IsRouted b → IsRouted (unregister to_upper id b)
  unfolding unregister
  unregister-IsRouted id b v = elim (Option-cases (lookup id b.modules)) [
    | inl unknown ↦ rw (unknown, unregister) v
    | inr (m, found) ↦
        rw (found, unregister)
          (record {
            keyed = erase-All Keyed id b.modules v.keyed;
            distinct = erase-Distinct id b.modules v.distinct;
            routed = λ c. owners_left c id m b v found;
          })
  ]

  -- The other calls leave the modules and their channels alone.
  untouched :
      (b b' : Bus H)
      → b'.modules ≡ b.modules
      → b'.channel_handlers ≡ b.channel_handlers
      → IsRouted b
      → IsRouted b'
  untouched b b' e f v = record {
    keyed = rw e v.keyed;
    distinct = rw e v.distinct;
    routed = λ c. rw (e, f) (v.routed c);
  }

  step-IsRouted : (b : Bus H) (c : Call H) → IsRouted b → IsRouted (step to_upper b c)
  unfolding step subscribe unsubscribe open_gate close_gate dispatch hop signal begin_request
      end_request shutdown
  step-IsRouted b (registers m) v = register-IsRouted m b v
  step-IsRouted b (unregisters id) v = unregister-IsRouted id b v
  step-IsRouted b (subscribes id t none) v = v
  step-IsRouted b (subscribes id t (some h)) v = untouched b _ refl refl v
  step-IsRouted b (unsubscribes id t) v = untouched b _ refl refl v
  step-IsRouted b opens_gate v = untouched b _ refl refl v
  step-IsRouted b closes_gate v = untouched b _ refl refl v
  step-IsRouted b (dispatches now e) v = untouched b _ (ground arith) (ground arith) v
  step-IsRouted b (begins fresh e) v = untouched b _ refl refl v
  step-IsRouted b (ends id) v = untouched b _ refl refl v
  step-IsRouted b shuts_down v = untouched b _ refl refl v

  pub run-IsRouted : (b : Bus H) (cs : List (Call H)) → IsRouted b → IsRouted (run to_upper b cs)
  unfolding run
  run-IsRouted b [] v = v
  run-IsRouted b (c ∷ cs) v = run-IsRouted (step to_upper b c) cs (step-IsRouted b c v)

  pub run-new_bus-IsRouted :
      (gated : List Key) (cs : List (Call H)) → IsRouted (run to_upper (new_bus to_upper gated) cs)
  run-new_bus-IsRouted gated cs = run-IsRouted (new_bus to_upper gated) cs (new_bus-IsRouted gated)
