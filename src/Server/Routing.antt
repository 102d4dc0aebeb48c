-- ===== src/Server/Routing.antt =====
-- server/server.go, gossip.go and backgroud.go: how a node learns which peer serves a client, and
-- where it sends a link.
pub mod Convergence
use t.Prelude.{
  ℕ, Bool, true, false, Option, none, some, List, [], ◌∷◌, ◌++◌, Outcome, ok, err, panic, ◌==◌,
  if◌then◌else◌,
}
use t.Multiplexer.Link.{Link}
use t.State.ConnectedClients.{
  Filter, ConnectedClients, ClientsError, new_connected_clients, marshal, unmarshal,
}
use t.State.PeerGraph.{PeerGraph, who, replace}
use t.State.PeerMap.{PeerMap, get, snapshot}

-- What a server routes by: its clients' sessions, its peers' sessions, the graph, the bytes that it
-- answers to a push/pull, and the client sets received and not yet merged (`updatesCh`).
pub record Router (P : Type 0) : Type 0 where
  pub id : ℕ
  pub clients : PeerMap P
  pub peers : PeerMap P
  pub graph : PeerGraph
  pub cached : Option (List ℕ)
  pub updates : List ConnectedClients

pub data Forwarded (P : Type 0) : Type 0 where
  opened : P → Forwarded P
  not_found : Forwarded P
  failed : Forwarded P

-- `destination_not_found` wraps `ErrDestinationNotFound`.
pub data RouteError (E : Type 0) : Type 0 where
  destination_not_found : RouteError E
  peer_failed : E → RouteError E

module _ {P : Type 0} where
  module _ (contains : Filter → ℕ → Bool) where
    via_graph : Router P → ℕ → Option P
    via_graph s client = get s.peers (who contains s.graph client)

    -- A client of our own, or else the peer that has it; nil is none.
    unfoldable pub find_path : Router P → Link → Option P
    unfolding via_graph
    find_path s link = elim (get s.clients link.destination) [
      | some p ↦ some p
      | none ↦ via_graph s link.destination
    ]

  -- What becomes of `Forward`: the connection is handed to a session, there is none, or the session
  -- fails. `bidirectional` is what its `Bidirectional` comes to.
  module _ {E : Type 0} (contains : Filter → ℕ → Bool)
      (bidirectional : P → Link → Outcome E (Unit {0})) where
    abbrev hand_over : P → Outcome E (Unit {0}) → Forwarded P
    hand_over p (ok _) = opened p
    hand_over p _ = failed

    unfoldable pub forward : Router P → Link → Forwarded P
    unfolding find_path
    forward s link = elim (find_path contains s link) [
      | none ↦ not_found
      | some p ↦ hand_over p (bidirectional p link)
    ]

  -- `Direct`: a stream for a link. `dial` is what `Direct` of a session comes to.
  module _ {E T : Type 0} (contains : Filter → ℕ → Bool) (dial : P → Link → Outcome E T) where
    abbrev dialled : Outcome E T → Outcome (RouteError E) T
    dialled (ok t) = ok t
    dialled (err e) = err (peer_failed e)
    dialled panic = panic

    unfoldable pub direct : Router P → Link → Outcome (RouteError E) T
    unfolding find_path
    direct s link = elim (find_path contains s link) [
      | none ↦ err destination_not_found
      | some p ↦ dialled (dial p link)
    ]

  module _ {E : Type 0} (crc : List ℕ → ℕ) (populate : List ℕ → Outcome E Filter) where
    cache : Router P → Outcome E ConnectedClients → Router P
    cache s (ok c) = record s { cached = some (marshal c) }
    cache s (err e) = s
    cache s panic = s

    unfoldable pub generate_connected_clients : Router P → Router P
    unfolding cache
    generate_connected_clients s =
        cache s (new_connected_clients crc populate s.id (snapshot s.clients))

  -- `LocalState(false)`: what a push/pull sends; nil is the empty buffer.
  unfoldable pub local_state : Router P → List ℕ
  local_state s = elim s.cached [ none ↦ [] | some b ↦ b ]

  -- The client set is handed to `updatesCh`; `panic` is that of `UnmarshalBinary`.
  enqueue : Router P → Outcome ClientsError ConnectedClients → Outcome (Unit {0}) (Router P)
  enqueue s (ok c) = ok (record s { updates = s.updates ++ c ∷ [] })
  enqueue s (err e) = ok s
  enqueue s panic = panic

  -- `MergeRemoteState(buf, false)`
  unfoldable pub merge_remote_state : Router P → List ℕ → Outcome (Unit {0}) (Router P)
  unfolding enqueue
  merge_remote_state s [] = ok s
  merge_remote_state s (b ∷ bs) = enqueue s (unmarshal (b ∷ bs))

  -- One round of `handleMerge`, on the oldest update.
  unfoldable pub handle_merge : Router P → Router P
  handle_merge s = elim s.updates [
    | [] ↦ s
    | x ∷ rest ↦
        if x.peer == s.id
        then record s { updates = rest }
        else record s { updates = rest; graph = (replace x s.graph).0 }
  ]
