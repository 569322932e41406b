-- ===== src/Security/SessionTests.antt =====
-- Sessions whose calls overtake each other, and the theorems at them.
use grimlocker_public.Base.{◌≡◌, true, false, some, [], ◌∷◌}
use grimlocker_public.Base.Int.{pos}
use grimlocker_public.Gql.Opcodes.{codes}
use grimlocker_public.Security.Session.{
  stopped, auth_ready, auth_logout, unlock, lock, create, set_dispatcher,
}
use grimlocker_public.Security.Session.Races.{
  Racing, Reaches, here, later, unlocks, locks, sends, connected, Explained, Reaches-connected,
  logout_overtakes,
}

-- Unlocked, locked, and only the logout sent.
abbrev waiting : Racing
waiting = record {
  session = record {
    active = false;
    mvk_handle = [];
    unlocked_at = 0;
    has_dispatcher = true;
    events = auth_logout ∷ [];
    auto_lock_minutes = pos 15;
    auto_lock_timer = some stopped;
    last_activity = 0;
  };
  in_flight = auth_ready 5 ∷ [];
}

waiting_reached : Reaches connected waiting
unfolding create set_dispatcher unlock lock
waiting_reached =
    later (later (later here (unlocks 5 (codes "h1") connected)) (locks _))
      (sends _ (auth_ready 5 ∷ []) auth_logout [])

Reaches-connected_example : Explained waiting
Reaches-connected_example = Reaches-connected waiting waiting_reached

logout_overtakes_example :
    (q : Racing) × Reaches connected q
    × (q.session.active ≡ false)
    × (q.in_flight ≡ [])
    × (q.session.events ≡ auth_logout ∷ auth_ready 0 ∷ [])
logout_overtakes_example = logout_overtakes 5 (codes "h1")
