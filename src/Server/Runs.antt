-- ===== src/Server/Runs.antt =====
-- The theorems on a server at small networks.
use t.Prelude.{
  ℕ, ◌+◌, ◌≡◌, refl, true, false, ◌⊎◌, none, some, String, List, [], ◌∷◌, ◌++◌, Outcome, ok,
  contains, length, lookup, keys, arith,
}
use t.Bytes.{copy, put_uint64}
use t.Multiplexer.Link.{Link, link_size, unmarshal as unmarshal_link, marshal as marshal_link}
use t.Shared.{peer_hash}
use t.State.ConnectedClients.{Filter, client_bytes}
use t.State.PeerMap.{PeerMap, PeerError, new_peer, get, snapshot, negotiate}
use t.State.PeerMap
use t.Server.Meta.{unmarshal}
use t.Server.Gossip.{Node, Local, responder, notify_join, reconnect, peer_reconciliation}
use t.Server.Gossip.Initiator.{Dials, Waits, joins_dial_once}
use t.Server.Gossip.Reconciliation.{all_dials, peer_reconciliation_lem, reconciliation_sticky}
use t.Server.Leader.{Leadership, told, changed, tell, fire, lowest, view, run}
use t.Server.Leader.Election.{lowest_agree}
use t.Server.Leader.Timer.{timer_sticks}
use t.Server.Routing.{
  Router, find_path, generate_connected_clients, local_state, merge_remote_state, handle_merge,
}
use t.Server.Routing.Convergence.{HasNoFalseNegatives, find_path-push_pull}
use t.Server.Negotiation.{config, peer_negotiation, client_negotiation}
use t.Server.Negotiation.Peers.{IsPeerLink, IsOffer, joined, peer_negotiation_ok}
use t.Server.Negotiation.Clients.{client_negotiation_ok}
use t.Server.Samples.{
  middle, quiet, low, filter_of, member, sessions, seven, eight, to_client, registry, offered,
  greeting, host, show_ip,
}

abbrev bytes_of : ℕ → ℕ → List ℕ
bytes_of id respond =
    10 ∷ 0 ∷ 0 ∷ 1 ∷ 0 ∷ 0 ∷ 0 ∷ 0 ∷ 0 ∷ 0 ∷ 0 ∷ 0 ∷ 0 ∷ 0 ∷ 43 ∷ 103 ∷ 0 ∷ 0 ∷ 0 ∷ 0 ∷ 0 ∷ 0 ∷ 0
    ∷ id ∷ 3 ∷ respond ∷ []

abbrev node_of : String → ℕ → ℕ → Node
node_of name id respond = record { is_alive = true; name = name; meta = bytes_of id respond }

abbrev here : Local ℕ
here = record {
  mine = middle;
  name = "middle";
  peers = record { self = 50; peers = []; notify = []; num = 0 };
}

abbrev there : Local ℕ
there = record {
  mine = low;
  name = "low";
  peers = record { self = 20; peers = []; notify = []; num = 0 };
}

joins_dial_once_example :
    (Dials show_ip here (node_of "low" 20 0) low × Waits show_ip there (node_of "middle" 50 0))
    ⊎ (Waits show_ip here (node_of "low" 20 0) × Dials show_ip there (node_of "middle" 50 0) middle)
unfolding unmarshal
joins_dial_once_example =
    joins_dial_once show_ip here there (node_of "low" 20 0) (node_of "middle" 50 0) refl refl refl
      refl refl refl (omega arith) refl

peer_reconciliation_lem_example :
    peer_reconciliation show_ip here (node_of "low" 20 0 ∷ node_of "high" 90 0 ∷ [])
    ≡ all_dials show_ip here (node_of "low" 20 0 ∷ node_of "high" 90 0 ∷ [])
unfolding unmarshal
peer_reconciliation_lem_example =
    peer_reconciliation_lem show_ip here (node_of "low" 20 0 ∷ node_of "high" 90 0 ∷ [])
      (refl, (refl, tt))

reconciliation_sticky_example :
    (notify_join show_ip here (node_of "low" 20 0) ≡ responder)
    × (peer_reconciliation show_ip here (node_of "quiet" 70 1 ∷ node_of "low" 20 0 ∷ [])
        ≡ reconnect show_ip here quiet ++ record low { respond_only = true } ∷ [])
unfolding unmarshal PeerMap.has lookup
reconciliation_sticky_example =
    reconciliation_sticky show_ip here (node_of "quiet" 70 1) (node_of "low" 20 0) quiet low refl
      refl refl refl refl refl refl refl (omega arith) refl refl

same_view : (k : ℕ) → contains (view 50 (20 ∷ 70 ∷ [])) k ≡ contains (view 70 (50 ∷ 20 ∷ [])) k
same_view k = ground arith

lowest_agree_example : lowest (view 50 (20 ∷ 70 ∷ [])) ≡ lowest (view 70 (50 ∷ 20 ∷ []))
lowest_agree_example =
    lowest_agree 50 70 (20 ∷ 70 ∷ []) (50 ∷ 20 ∷ []) (omega arith) (omega arith) same_view

-- A leader whose timer runs.
abbrev leading : Leadership
leading = record {
  self = 50;
  current = 50;
  telling = told;
  starts = false;
  stops = false;
  timer = true;
  checking = 0;
  returning = 0;
  stuck = false;
}

timer_sticks_example :
    (t : Leadership) × (run leading (changed (20 ∷ []) ∷ tell ∷ fire ∷ []) ≡ some t)
    × (t.stuck ≡ true)
unfolding lowest
timer_sticks_example = timer_sticks leading (20 ∷ []) refl refl refl refl refl (omega arith)

abbrev waiting : Leadership
waiting = record leading { current = 20; timer = false; stops = true; stuck = true }

abbrev populate : List ℕ → Outcome (Unit {0}) Filter
populate ks = ok (filter_of ks)

member_complete : HasNoFalseNegatives member populate
member_complete ks f k built there = ground (arith)

find_path-push_pull_example :
    (s : Router ℕ) × (merge_remote_state eight
        (local_state (generate_connected_clients (λ b. length b) populate seven))
      ≡ ok s)
    × (find_path member (handle_merge s) to_client ≡ some 700)
unfolding lookup snapshot get keys
find_path-push_pull_example =
    find_path-push_pull (λ b. length b) populate member member_complete eight seven
      (filter_of (30 ∷ 31 ∷ [])) to_client refl (unfold client_bytes put_uint64 in omega arith) refl
      (omega arith) tt (λ d e. cc) refl refl (λ j d e h. cc)

peer_negotiation_ok_example :
    (link : Link) × (p : ℕ) × IsOffer (3 ∷ []) offered link
    × IsPeerLink 7 link
    × (lookup {V = ℕ} link.source [] ≡ none)
    × (negotiate registry (λ p w. false) link.protocol (config 1 5 link.source) ≡ ok p)
    × (joined 9 109 (sessions []) ≡ joined link.source p (sessions []))
unfolding peer_negotiation marshal_link unmarshal_link copy lookup new_peer negotiate
peer_negotiation_ok_example =
    peer_negotiation_ok registry (λ p w. false) 7 1 (sessions []) (joined 9 109 (sessions [])) 5
      (3 ∷ []) offered refl

client_negotiation_ok_example :
    (link : Link) × (p : ℕ) × IsOffer (3 ∷ []) greeting link
    × (link.source ≡ 0)
    × (link.destination ≡ 0)
    × (◌≡◌ {A = Outcome (Unit {0}) ℕ} (ok 18) (ok link_size))
    × (◌≡◌ {A = Outcome (Unit {0}) (Unit {0})} (ok tt) (ok tt))
    × (lookup {V = ℕ} (peer_hash host) [] ≡ none)
    × (negotiate registry (λ p w. false) link.protocol (config 1 5 (peer_hash host)) ≡ ok p)
    × (joined (peer_hash host) (peer_hash host + 100) (sessions [])
        ≡ joined (peer_hash host) p (sessions []))
unfolding client_negotiation marshal_link unmarshal_link copy lookup new_peer negotiate
client_negotiation_ok_example =
    client_negotiation_ok registry (λ p w. false) 7 1 (sessions [])
      (joined (peer_hash host) (peer_hash host + 100) (sessions [])) 5 host (3 ∷ []) greeting
      (ok 18) (ok tt) refl
