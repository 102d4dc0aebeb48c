-- ===== src/Messaging/Calls/Runs.antt =====
-- The theorems on calls and streams, at node 9, which calls node 8 under key 77.
use t.Prelude.{◌≤◌, ◌≡◌, refl, true, [], ◌∷◌, lookup}
use t.Messaging.Message.{Message}
use t.Messaging.Calls.{timed_out, leaving, Calls, arrive, run}
use t.Messaging.Calls.Waiting.{is_over, senders, handler_stuck}

-- Call 1 runs out of time while its reply is on its way.
abbrev late : Calls
late = record {
  table = [];
  calls = (1, (77, leaving timed_out)) ∷ [];
  handing = record { key = 77; call = 1; reply = 5 ∷ [] } ∷ [];
}

handler_stuck_example :
    (is_over (lookup 1 (late.calls)) ≡ true) × (senders 1 late.handing ≤ senders 1 late.handing)
unfolding run lookup
handler_stuck_example = handler_stuck late late (arrive 77 (6 ∷ []) ∷ []) 1 refl refl
