-- ===== src/Kernel/Bus/Onward.antt =====
-- What Dispatch of engine/kernel/bus.go makes of an event before it hands it on, described without
-- its code.
use grimlocker_public.Base.{
  ◌≡◌, refl, ap, ap₂, ◌-◌, ℕ, zero, suc, List, [], ◌∷◌, Option, none, some, arith, ◌==◌,
  if◌then◌else◌,
}
use grimlocker_public.Base.Int.{ℤ, pos, negsuc}
use grimlocker_public.Kernel.Event.{Event}
use grimlocker_public.Kernel.Bus.{NamedHandler, default_ttl, hop, send}

-- The TTL that an event goes on with: one less, 7 for a TTL of 0; none if it is negative.
abbrev pub hops_left : ℤ → Option ℕ
hops_left (negsuc _) = none
hops_left (pos zero) = some 7
hops_left (pos (suc n)) = some n

-- The time of an event, which is the time of the call if it had none.
abbrev pub time_sent : ℕ → ℕ → ℕ
time_sent now zero = now
time_sent now (suc t) = suc t

unfoldable pub onward : ℕ → Event → Option Event
onward now e = elim (hops_left e.ttl) [
  | none ↦ none
  | some n ↦ some (record e { ttl = pos n; timestamp = time_sent now e.timestamp })
]

-- Each of the handlers gets the event.
abbrev pub each_gets : {H : Type 0} → Event → List (NamedHandler H) → List (H × Event)
each_gets e [] = []
each_gets e (h ∷ hs) = (h.handler, e) ∷ each_gets e hs

pub send-each_gets :
    {H : Type 0} → (e : Event) (hs : List (NamedHandler H)) → send e hs ≡ each_gets e hs
send-each_gets e [] = refl
send-each_gets e (h ∷ hs) = ap (λ r. (h.handler, e) ∷ r) (send-each_gets e hs)

time_sent_lem : (now t : ℕ) → (if t == 0 then now else t) ≡ time_sent now t
time_sent_lem now zero = refl
time_sent_lem now (suc t) = ground arith

one_hop_less : (n : ℕ) → (if suc n == 0 then default_ttl else suc n) - 1 ≡ n
one_hop_less n = ground arith

hop_with : (now : ℕ) (e : Event) (t : ℤ) → e.ttl ≡ t → hop now e ≡ onward now e
unfolding hop onward
hop_with now e (negsuc n) h = rw (h, hop, onward) refl
hop_with now e (pos zero) h =
    rw (h, hop, onward)
      (ap (λ at. some (record e { ttl = pos 7; timestamp = at })) (time_sent_lem now e.timestamp))
hop_with now e (pos (suc n)) h =
    rw (h, hop, onward)
      (ap₂ (λ i at. some (record e { ttl = pos i; timestamp = at })) (one_hop_less n)
        (time_sent_lem now e.timestamp))

pub hop-onward : (now : ℕ) (e : Event) → hop now e ≡ onward now e
hop-onward now e = hop_with now e e.ttl refl
