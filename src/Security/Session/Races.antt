-- ===== src/Security/Session/Races.antt =====
-- Unlock and Lock of engine/security/session.go, called at the same time: the mutex covers the changes of
-- a method, but its event is made and dispatched after, so that other calls may come between.
use mathlib.Core.List.{Perm, append_assoc, perm_middle}
use mathlib.Core.List.Perm
use grimlocker_public.Base.{
  ◌≡◌, refl, ap, sym, subst, ◌∙◌, ℕ, Bool, true, false, ◌&&◌, List, [], ◌∷◌, ◌++◌, some, map,
  Bool-cases, inl, inr,
}
use grimlocker_public.Security.Session.{
  Event, auth_ready, auth_logout, SessionContext, create, set_dispatcher, unlock, lock,
}
use grimlocker_public.Security.Session.Events.{hear, hear_all, hear_all-append}

-- A session, and the events of calls that have made their changes.
pub record Racing : Type 0 where
  pub session : SessionContext
  pub in_flight : List Event

abbrev pub muted : SessionContext → SessionContext
muted s = record s { has_dispatcher = false }

-- An event that a call will dispatch, if it does.
abbrev pub will_send : Bool → Event → List Event → List Event
will_send true e es = es ++ e ∷ []
will_send false e es = es

-- The time in AUTH.READY is that of the session when the event is made.
abbrev pub read_time : SessionContext → Event → Event
read_time s (auth_ready t) = auth_ready s.unlocked_at
read_time s auth_logout = auth_logout

-- The changes of Unlock and of Lock, and the dispatch of any event that waits for it.
pub data Step : Racing → Racing → Type 0 where
  unlocks :
      (now : ℕ) (handle : List ℕ) (q : Racing)
      → Step q (record {
        session = record (unlock now handle (muted q.session)) {
          has_dispatcher = q.session.has_dispatcher;
        };
        in_flight = will_send q.session.has_dispatcher (auth_ready now) q.in_flight;
      })
  locks :
      (q : Racing)
      → Step q (record {
        session = record (lock (muted q.session)) { has_dispatcher = q.session.has_dispatcher };
        in_flight =
            will_send (q.session.active && q.session.has_dispatcher) auth_logout q.in_flight;
      })
  sends :
      (s : SessionContext) (before : List Event) (e : Event) (after : List Event)
      → Step
          (record { session = s; in_flight = before ++ e ∷ after })
          (record {
            session = record s { events = s.events ++ read_time s e ∷ [] };
            in_flight = before ++ after;
          })

pub data Reaches (start : Racing) : Racing → Type 0 where
  here : Reaches start start
  later : {q r : Racing} → Reaches start q → Step q r → Reaches start r

abbrev pub connected : Racing
connected = record { session = set_dispatcher true create; in_flight = [] }

-- An event without its time.
abbrev pub untimed : Event → Event
untimed (auth_ready t) = auth_ready 0
untimed auth_logout = auth_logout

-- The events in the order of the changes, of which those that were sent and those in flight are a
-- rearrangement, up to times: who hears them in that order knows whether the vault is unlocked.
pub record Explained (q : Racing) : Type 0 where
  pub history : List Event
  pub same : Perm history (map untimed (q.session.events ++ q.in_flight))
  pub tells : hear_all (some false) history ≡ some q.session.active
  pub wired : q.session.has_dispatcher ≡ true

map-append_untimed :
    (xs ys : List Event) → map untimed (xs ++ ys) ≡ map untimed xs ++ map untimed ys
map-append_untimed [] ys = refl
map-append_untimed (x ∷ xs) ys = ap (λ r. untimed x ∷ r) (map-append_untimed xs ys)

untimed-read_time : (s : SessionContext) (e : Event) → untimed (read_time s e) ≡ untimed e
untimed-read_time s (auth_ready t) = refl
untimed-read_time s auth_logout = refl

one_more :
    (history sent waiting : List Event) (e : Event)
    → Perm history (map untimed (sent ++ waiting))
    → Perm (history ++ untimed e ∷ []) (map untimed (sent ++ (waiting ++ e ∷ [])))
one_more history sent waiting e p =
    subst (Perm (history ++ untimed e ∷ []))
      (sym (map-append_untimed (sent ++ waiting) (e ∷ []))
        ∙ ap (map untimed) (append_assoc sent waiting (e ∷ [])))
      (Perm.append_right (untimed e ∷ []) p)

one_sent :
    (s : SessionContext) (history before after : List Event) (e : Event)
    → Perm history (map untimed (s.events ++ (before ++ e ∷ after)))
    → Perm history (map untimed (s.events ++ read_time s e ∷ [] ++ (before ++ after)))
one_sent s history before after e p =
    let moved = Perm.map untimed (Perm.append_left s.events (perm_middle {a = e} before after)) in
    let read : map untimed (s.events ++ e ∷ (before ++ after))
        ≡ map untimed (s.events ++ read_time s e ∷ (before ++ after)) =
      map-append_untimed s.events (e ∷ (before ++ after))
      ∙ ap (λ x. map untimed s.events ++ x ∷ map untimed (before ++ after))
          (sym (untimed-read_time s e))
      ∙ sym (map-append_untimed s.events (read_time s e ∷ (before ++ after))) in
    subst (Perm history)
      (read ∙ ap (map untimed) (sym (append_assoc s.events (read_time s e ∷ []) (before ++ after))))
      (Perm.trans p moved)

lock-muted :
    (s : SessionContext) → ((lock (muted s)).events ≡ s.events) × ((lock (muted s)).active ≡ false)
unfolding lock
lock-muted s = elim (Bool-cases s.active) [
  | inl on ↦ (rw (lock, on) refl, rw (lock, on) refl)
  | inr off ↦ (rw (lock, off) refl, rw (lock, off) refl)
]

-- The changes of Lock, whether they announce a logout.
lock-Explained :
    (q : Racing) (announces : Bool)
    → q.session.active ≡ announces
    → Explained q
    → Explained (record {
      session = record (lock (muted q.session)) { has_dispatcher = q.session.has_dispatcher };
      in_flight = will_send (announces && q.session.has_dispatcher) auth_logout q.in_flight;
    })
lock-Explained q true on x =
    let (events, off) = lock-muted q.session in
    record {
      history = x.history ++ auth_logout ∷ [];
      same =
          subst
            (λ es.
              Perm (x.history ++ auth_logout ∷ [])
                (map untimed (es ++ will_send q.session.has_dispatcher auth_logout q.in_flight)))
            (sym events)
            (subst
              (λ d.
                Perm (x.history ++ auth_logout ∷ [])
                  (map untimed (q.session.events ++ will_send d auth_logout q.in_flight)))
              (sym (x.wired)) (one_more x.history q.session.events q.in_flight auth_logout x.same));
      tells =
          hear_all-append (some false) x.history auth_logout
          ∙ ap (λ k. hear k auth_logout) (x.tells ∙ ap some on)
          ∙ ap some (sym off);
      wired = x.wired;
    }
lock-Explained q false on x =
    let (events, off) = lock-muted q.session in
    record {
      history = x.history;
      same = subst (λ es. Perm x.history (map untimed (es ++ q.in_flight))) (sym events) (x.same);
      tells = x.tells ∙ ap some (on ∙ sym off);
      wired = x.wired;
    }

step-Explained : (q r : Racing) → Step q r → Explained q → Explained r
unfolding unlock
step-Explained q r (unlocks now handle _) x = record {
  history = x.history ++ auth_ready 0 ∷ [];
  same =
      subst
        (λ d.
          Perm (x.history ++ auth_ready 0 ∷ [])
            (map untimed (q.session.events ++ will_send d (auth_ready now) q.in_flight)))
        (sym (x.wired)) (one_more x.history q.session.events q.in_flight (auth_ready now) x.same);
  tells =
      hear_all-append (some false) x.history (auth_ready 0)
      ∙ ap (λ k. hear k (auth_ready 0)) (x.tells);
  wired = x.wired;
}
step-Explained q r (locks _) x = lock-Explained q q.session.active refl x
step-Explained q r (sends s before e after) x = record {
  history = x.history;
  same = one_sent s x.history before after e x.same;
  tells = x.tells;
  wired = x.wired;
}

Reaches-Explained : {q r : Racing} → Reaches q r → Explained q → Explained r
Reaches-Explained here x = x
Reaches-Explained (later path s) x = step-Explained _ _ s (Reaches-Explained path x)

-- However calls of Unlock and Lock on a connected session overtake each other: the events that were
-- sent and those in flight are, up to times, a rearrangement of a history from which a subscriber knows whether the
-- vault is unlocked.
pub Reaches-connected : (q : Racing) → Reaches connected q → Explained q
unfolding create set_dispatcher
Reaches-connected q path =
    Reaches-Explained path
      (record { history = []; same = Perm.refl []; tells = refl; wired = refl })

-- The history is not always what is heard: whatever the time and the handle, a session can be unlocked
-- and locked, and nothing be in flight, while the last event that was sent says that it is unlocked,
-- since the zero time.
pub logout_overtakes :
    (now : ℕ) (handle : List ℕ)
    → (q : Racing) × Reaches connected q
      × (q.session.active ≡ false)
      × (q.in_flight ≡ [])
      × (q.session.events ≡ auth_logout ∷ auth_ready 0 ∷ [])
unfolding create set_dispatcher unlock lock
logout_overtakes now handle =
    let path = later (later here (unlocks now handle connected)) (locks _) in
    (
      _,
      later (later path (sends _ (auth_ready now ∷ []) auth_logout []))
          (sends _ [] (auth_ready now) []),
      refl,
      refl,
      refl,
    )
