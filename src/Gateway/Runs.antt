-- ===== src/Gateway/Runs.antt =====
-- The theorem on visitors at a node with one client, whose name is "a".
use t.Prelude.{ℕ, none, List, [], ◌∷◌, ◌++◌, Outcome, ok, err, same, if◌then◌else◌}
use t.Multiplexer.Alpn
use t.Multiplexer.Link.{Link}
use t.Shared.{peer_hash}
use t.Server.Routing.{Router}
use t.Gateway.{dot}
use t.Gateway.Apex.{https_name}
use t.Client.Commands.{Target, TlsDial, join_port, default_port}

abbrev one_client : Router ℕ
one_client = record {
  id = 50;
  clients = record { self = 50; peers = (peer_hash (97 ∷ []), 300) ∷ []; notify = []; num = 1 };
  peers = record { self = 50; peers = []; notify = []; num = 0 };
  graph = [];
  cached = none;
  updates = [];
}

-- "io", and the gateway's own name, "t.io"
abbrev domain : List ℕ
domain = 105 ∷ 111 ∷ []

abbrev own_name : List ℕ
own_name = 116 ∷ 46 ∷ 105 ∷ 111 ∷ []

abbrev proposal : Link
proposal = record { source = 0; destination = 0; protocol = 3; alpn = 1 }

-- The command answers a dial to port 443 with the connection 12, and has no other.
abbrev visitor_dial : TlsDial → Outcome ℕ ℕ
visitor_dial d =
    if same d.addr (join_port ((97 ∷ []) ++ dot ∷ domain) default_port) then ok 12 else err 1

abbrev visited : Target
visited = record {
  scheme = https_name;
  host = (97 ∷ []) ++ dot ∷ domain;
  hostname = (97 ∷ []) ++ dot ∷ domain;
  port = [];
}

abbrev to_301 : ℕ → Link → Outcome ℕ ℕ
to_301 p link = ok 301

abbrev target : Outcome (Unit {0}) ℕ
target = ok 9
