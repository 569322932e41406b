-- ===== src/Kernel/Bus/View.antt =====
-- The state of engine/kernel/bus.go without its tables: the registered modules, one list of
-- subscriptions and the gate.
use mathlib.Core.List.{append-nil}
use grimlocker_public.Base.{
  ◌≡◌, refl, sym, ap, ◌∙◌, Bool, true, false, ◌&&◌, List, [], ◌∷◌, ◌++◌, none, some, arith,
  bytes_eq, if◌then◌else◌, Bool-cases, inl, inr,
}
use grimlocker_public.Base.Dict.{Key, Dict, lookup, insert, erase, bytes_eq_iff}
use grimlocker_public.Kernel.Event.{EventType}
use grimlocker_public.Kernel.Bus.{Module, NamedHandler, Bus, handlers_at, without}
use grimlocker_public.Kernel.Bus.Calls.{
  Call, registers, unregisters, subscribes, unsubscribes, opens_gate, closes_gate, dispatches,
  begins, ends, shuts_down,
}
use grimlocker_public.Kernel.Bus.Owners.{handlers_at-insert}

pub record View (H : Type 0) : Type 0 where
  pub registered : Dict (Module H)
  pub subscriptions : List (EventType × NamedHandler H)
  pub is_open : Bool

module _ {H : Type 0} where
  abbrev pub of_type : EventType → List (EventType × NamedHandler H) → List (NamedHandler H)
  of_type t [] = []
  of_type t ((u, h) ∷ s) = let rest = of_type t s in if bytes_eq u t then h ∷ rest else rest

  abbrev pub drop_subscription :
      Key → EventType → List (EventType × NamedHandler H) → List (EventType × NamedHandler H)
  drop_subscription id t [] = []
  drop_subscription id t ((u, h) ∷ s) =
      let rest = drop_subscription id t s in
      if bytes_eq u t && bytes_eq h.id id then rest else (u, h) ∷ rest

  -- A second module with the same identifier is refused.
  abbrev pub add_module : Module H → Dict (Module H) → Dict (Module H)
  add_module m ms = elim (lookup m.id ms) [ none ↦ insert m.id m ms | some _ ↦ ms ]

  -- What a call changes of the view.
  abbrev pub view_step : View H → Call H → View H
  view_step v (registers m) = record v { registered = add_module m v.registered }
  view_step v (unregisters id) = record v { registered = erase id v.registered }
  view_step v (subscribes id t none) = v
  view_step v (subscribes id t (some h)) = record v {
    subscriptions = v.subscriptions ++ (t, record { id = id; handler = h }) ∷ [];
  }
  view_step v (unsubscribes id t) = record v {
    subscriptions = drop_subscription id t v.subscriptions;
  }
  view_step v opens_gate = record v { is_open = true }
  view_step v closes_gate = record v { is_open = false }
  view_step v (dispatches now e) = v
  view_step v (begins fresh e) = v
  view_step v (ends id) = v
  view_step v shuts_down = v

  unfoldable pub view_run : View H → List (Call H) → View H
  view_run v [] = v
  view_run v (c ∷ cs) = view_run (view_step v c) cs

  abbrev pub no_view : View H
  no_view = record { registered = []; subscriptions = []; is_open = false }

  pub of_type-append :
      (t : EventType) (xs ys : List (EventType × NamedHandler H))
      → of_type t (xs ++ ys) ≡ of_type t xs ++ of_type t ys
  of_type-append t [] ys = refl
  of_type-append t ((u, h) ∷ xs) ys = ground (arith, of_type-append t xs ys)

  pub of_type-drop_subscription :
      (t u : EventType) (id : Key) (s : List (EventType × NamedHandler H))
      → of_type t (drop_subscription id u s)
        ≡ (if bytes_eq u t then without id (of_type t s) else of_type t s)
  of_type-drop_subscription t u id [] = ground arith
  of_type-drop_subscription t u id ((w, h) ∷ s) = ground (
    arith,
    of_type-drop_subscription t u id s,
    bytes_eq_iff w u,
    bytes_eq_iff w t,
    bytes_eq_iff u t,
  )

  pub types_subscribed :
      (t u : EventType) (n : NamedHandler H) (b : Bus H) (subs : List (EventType × NamedHandler H))
      → ((w : EventType) → handlers_at w b.type_handlers ≡ of_type w subs)
      → handlers_at u (insert t (handlers_at t b.type_handlers ++ n ∷ []) b.type_handlers)
        ≡ of_type u (subs ++ (t, n) ∷ [])
  types_subscribed t u n b subs h =
      handlers_at-insert u t (handlers_at t b.type_handlers ++ n ∷ []) b.type_handlers
      ∙ elim (Bool-cases (bytes_eq t u)) [
        | inl same ↦
            let e : t ≡ u = (bytes_eq_iff t u).0 same in
            rw (of_type-append u subs ((t, n) ∷ []), same, e) (ap (λ r. r ++ n ∷ []) (h u))
        | inr other ↦
            rw (of_type-append u subs ((t, n) ∷ []), other)
              (h u ∙ sym (append-nil (of_type u subs)))
      ]

  pub types_unsubscribed :
      (id : Key) (t u : EventType) (b : Bus H) (subs : List (EventType × NamedHandler H))
      → ((w : EventType) → handlers_at w b.type_handlers ≡ of_type w subs)
      → handlers_at u (insert t (without id (handlers_at t b.type_handlers)) b.type_handlers)
        ≡ of_type u (drop_subscription id t subs)
  types_unsubscribed id t u b subs h =
      handlers_at-insert u t (without id (handlers_at t b.type_handlers)) b.type_handlers
      ∙ elim (Bool-cases (bytes_eq t u)) [
        | inl same ↦
            let e : t ≡ u = (bytes_eq_iff t u).0 same in
            rw (of_type-drop_subscription u t id subs, same, e) (ap (without id) (h u))
        | inr other ↦ rw (of_type-drop_subscription u t id subs, other) (h u)
      ]
