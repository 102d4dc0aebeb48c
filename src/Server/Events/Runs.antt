-- ===== src/Server/Events/Runs.antt =====
-- The theorems on what happens between nodes, at the two nodes of Server/Samples.antt.
use t.Prelude.{
  ◌++◌, panic, ℕ, ◌+◌, ◌≡◌, refl, true, false, none, some, List, [], ◌∷◌, Outcome, ok, err, arith,
  lookup, panic,
}
use t.Multiplexer.Link.{IsLink, marshal, messaging_link}
use t.State.ConnectedClients.{ConnectedClients}
use t.State.PeerGraph
use t.State.PeerMap.{get}
use t.Messaging.Message.{Message}
use t.Multiplexer.Channel.{new_channel}
use t.Mux.{accept_link}
use t.Mux.Sessions.{Peer, over_yamux, over_mplex, over_quic, bidirectional}
use t.Server.Samples.{member, seven, to_client, filter_of}
use t.Server.Routing.{Router, find_path, forward, opened}
use t.Server.Events.{handle_stream, forwarded}
use t.Server.Events.Streams.{Event, registered, streamed, ended, wrote, announced, run}
use t.Server.Events.Visits.{two_hops}
use t.Server.Events.Duplicates.{second_stream_panics}

abbrev heard : ℕ → ConnectedClients
heard peer = record { peer = peer; crc64 = 8; filter = filter_of (31 ∷ []) }

-- The session between nodes 7 and 8 is over yamux, that of the client over mplex.
abbrev between : Peer ℕ ℕ ℕ
between = over_yamux (record {
  session = 78;
  config = record { has_logger = true; conn = some 5; peer = 7; initiator = true; wait = 1 };
  channel = new_channel;
  session_closed = false;
  conn_closed = false;
})

abbrev of_client : Peer ℕ ℕ ℕ
of_client = over_mplex (record {
  session = 310;
  config = record { has_logger = true; conn = some 6; peer = 31; initiator = false; wait = 1 };
  channel = new_channel;
  session_closed = false;
  conn_closed = false;
})

-- Node 8 with what it has heard of nodes 6 and 7, and node 7 with a client.
abbrev informed : Router (Peer ℕ ℕ ℕ)
informed = record {
  id = 8;
  clients = record { self = 8; peers = []; notify = []; num = 0 };
  peers = record { self = 8; peers = (7, between) ∷ []; notify = []; num = 1 };
  graph = (7, heard 7) ∷ (6, heard 6) ∷ [];
  cached = none;
  updates = [];
}

abbrev serving : Router (Peer ℕ ℕ ℕ)
serving = record informed {
  id = 7;
  clients = record { self = 7; peers = (31, of_client) ∷ []; notify = []; num = 1 };
  peers = record { self = 7; peers = (8, between) ∷ []; notify = []; num = 1 };
}

to_client-IsLink : IsLink to_client
to_client-IsLink = record {
  source_fits = omega arith;
  destination_fits = omega arith;
  protocol_fits = omega arith;
  alpn_fits = omega arith;
}

abbrev hello : Message
hello = record { kind = 3; from = 9; payload = 1 ∷ [] }

abbrev fine : Outcome (Unit {0}) (Unit {0})
fine = ok tt

abbrev taken : Outcome (Unit {0}) ℕ
taken = ok 18

abbrev write_whole : ℕ → List ℕ → ℕ × Outcome (Unit {0}) ℕ
write_whole t b = (t + 1, taken)

abbrev open_stream : Peer ℕ ℕ ℕ → Outcome (Unit {0}) ℕ
open_stream (over_yamux p) = ok 1
open_stream (over_mplex p) = ok 3
open_stream (over_quic p) = err tt

two_hops_example :
    (forward member
        (λ q l. bidirectional {V = ℕ} write_whole q (open_stream q) 9 l)
        informed
        to_client
      ≡ opened between)
    × (accept_link {F = Unit {0}} {T = ℕ} 4 (ok (marshal to_client))
        ≡ some (record { conn = 4; link = to_client }))
    × (handle_stream member
          (λ q l. bidirectional {V = ℕ} write_whole q (open_stream q) 4 l)
          serving
          to_client
        ≡ forwarded (opened of_client))
    × (accept_link {F = Unit {0}} {T = ℕ} 5 (ok (marshal to_client))
        ≡ some (record { conn = 5; link = to_client }))
unfolding find_path get lookup PeerGraph.who
two_hops_example =
    two_hops member write_whole open_stream 9 informed serving to_client 1 2 3 4 4 5 between
      of_client to_client-IsLink (omega arith) refl refl refl refl refl refl

-- The node opens a stream to peer 7, which announces, talks to peer 8, and loses it; then peer 7
-- opens one.
abbrev between_two : List (Event ℕ (Unit {0}) ℕ)
between_two =
    registered 8 false (ok 2)
    ∷ wrote 7 hello
    ∷ announced 3 (1 ∷ [])
    ∷ ended 8
    ∷ streamed seven 7 to_client
    ∷ []

second_stream_panics_example :
    run member
      (λ (q : ℕ) l. fine)
      9
      []
      (registered 7 false (ok 1) ∷ (between_two ++ streamed seven 7 messaging_link ∷ []))
    ≡ panic
second_stream_panics_example =
    second_stream_panics member (λ q l. fine) 9 7 [] (registered 7 false (ok 1))
      (streamed seven 7 messaging_link) between_two refl (tt, (tt, (tt, (omega arith, (tt, tt)))))
      (refl, refl)
