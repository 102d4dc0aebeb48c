-- ===== src/Server/Samples.antt =====
-- Small networks: the nodes of one gossip, two nodes with clients, and the first bytes of a peer and of
-- a client. Sessions are numbers, filters are lists of clients.
use t.Prelude.{
  ℕ, ◌+◌, Bool, true, false, Option, none, some, String, List, [], ◌∷◌, Outcome, ok, contains,
  length, Map,
}
use t.Multiplexer.Config.{Config}
use t.Multiplexer.Link.{Link, marshal as marshal_link}
use t.State.ConnectedClients.{Filter}
use t.State.PeerMap.{PeerMap}
use t.Server.Meta.{Meta}
use t.Server.Routing.{Router}

-- An address is the text of its last byte here.
abbrev pub parse_ip : String → Option (List ℕ)
parse_ip s = some (0 ∷ 0 ∷ 0 ∷ 0 ∷ 0 ∷ 0 ∷ 0 ∷ 0 ∷ 0 ∷ 0 ∷ 255 ∷ 255 ∷ 10 ∷ 0 ∷ 0 ∷ 1 ∷ [])

abbrev pub show_ip : List ℕ → String
show_ip b = "10.0.0.1"

-- Three nodes: the middle one dials, the others differ in whether they do.
abbrev pub middle : Meta
middle = record {
  connect_ip = "10.0.0.1";
  connect_port = 11111;
  peer_id = 50;
  protocol = 3;
  respond_only = false;
}

abbrev pub quiet : Meta
quiet = record middle { peer_id = 70; respond_only = true }

abbrev pub low : Meta
low = record middle { peer_id = 20 }

-- Sessions are numbers, filters are lists of clients, and a checksum is a length.
abbrev pub filter_of : List ℕ → Filter
filter_of ks = record {
  seed = 0;
  segment_length = 0;
  segment_length_mask = 0;
  segment_count = 0;
  segment_count_length = 0;
  fingerprints = ks;
}

abbrev pub member : Filter → ℕ → Bool
member f k = contains f.fingerprints k

abbrev pub sessions : Map ℕ → PeerMap ℕ
sessions m = record { self = 0; peers = m; notify = []; num = length m }

abbrev pub seven : Router ℕ
seven = record {
  id = 7;
  clients = sessions ((30, 300) ∷ (31, 310) ∷ []);
  peers = sessions ((8, 800) ∷ []);
  graph = [];
  cached = none;
  updates = [];
}

abbrev pub eight : Router ℕ
eight = record seven {
  id = 8;
  clients = sessions ((40, 400) ∷ []);
  peers = sessions ((7, 700) ∷ []);
}

abbrev pub to_client : Link
to_client = record { source = 8; destination = 31; protocol = 0; alpn = 2 }

-- One constructor is registered, for QUIC; its sessions carry the peer's identifier.
abbrev pub registry : Map (Config ℕ → Outcome (Unit {0}) ℕ)
registry = (3, λ c. ok (c.peer + 100)) ∷ []

abbrev pub offer : Link
offer = record { source = 9; destination = 7; protocol = 3; alpn = 1 }

abbrev pub offered : Outcome (Unit {0}) (List ℕ)
offered = ok (marshal_link offer)

abbrev pub zero_offer : Link
zero_offer = record { source = 0; destination = 0; protocol = 3; alpn = 1 }

abbrev pub greeting : Outcome (Unit {0}) (List ℕ)
greeting = ok (marshal_link zero_offer)

abbrev pub host : List ℕ
host = 97 ∷ 45 ∷ 98 ∷ []
