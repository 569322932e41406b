-- ===== src/Kernel/Bus/Hops.antt =====
-- The TTL of engine/kernel/bus.go: what Dispatch makes of it along a chain of handlers that each
-- dispatch the event that they got.
use grimlocker_public.Base.{
  ◌≡◌, refl, ℕ, ◌-◌, List, [], ◌∷◌, Option, none, some, ◌==◌, if◌then◌else◌,
}
use grimlocker_public.Base.Int.{pos}
use grimlocker_public.Kernel.Event.{Event}
use grimlocker_public.Kernel.Bus.{default_ttl, hop}

-- One dispatch for each reading of the clock.
unfoldable pub forward : List ℕ → Event → Option Event
forward [] e = some e
forward (now ∷ nows) e = elim (hop now e) [ none ↦ none | some e' ↦ forward nows e' ]

-- The TTL after so many dispatches.
abbrev pub ttl_after : List ℕ → ℕ → ℕ
ttl_after [] n = n
ttl_after (_ ∷ nows) n = ttl_after nows ((if n == 0 then default_ttl else n) - 1)

-- An event whose TTL is not negative is dispatched however often it has been forwarded, with the
-- same identifier, type and payload.
pub forward_forever :
    (nows : List ℕ) (n : ℕ) (e : Event)
    → e.ttl ≡ pos n
    → (e' : Event) × forward nows e ≡ some e'
      × e'.ttl ≡ pos (ttl_after nows n)
      × e'.id ≡ e.id
      × e'.event_type ≡ e.event_type
      × e'.payload ≡ e.payload
unfolding forward hop
forward_forever [] n e h = (e, refl, h, refl, refl, refl)
forward_forever (now ∷ nows) n e h =
    let e' : Event = record e {
      ttl = pos ((if n == 0 then default_ttl else n) - 1);
      timestamp = if e.timestamp == 0 then now else e.timestamp;
    } in
    let rest = forward_forever nows ((if n == 0 then default_ttl else n) - 1) e' refl in
    rw (forward, hop, h) rest
