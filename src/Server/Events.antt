-- ===== src/Server/Events.antt =====
-- server/peers.go, clients.go and gossip.go: what a node does when a session with a peer or a client is
-- registered, asks for a stream, or ends, and when gossip sees a node leave.
pub mod Departure
pub mod Visits
pub mod Streams
pub mod Duplicates
mod Runs
use t.Prelude.{
  ℕ, Bool, true, false, ◌&&◌, Option, none, some, String, List, Outcome, ok, err, panic, ◌==◌,
  str_eq, if◌then◌else◌,
}
use t.Multiplexer.Link.{Link, messaging_link}
use t.State.ConnectedClients.{Filter}
use t.State.PeerGraph
use t.State.PeerMap
use t.Server.Meta.{Meta, MetaError, blank, unmarshal}
use t.Server.Gossip.{Node, Local}
use t.Server.Routing.{Router, Forwarded, forward}

-- `==` on links
unfoldable pub same_link : Link → Link → Bool
same_link a b =
    a.source == b.source
    && (a.destination == b.destination && (a.protocol == b.protocol && a.alpn == b.alpn))

-- What becomes of a stream that a peer opened: it is a messaging stream, or it is forwarded.
pub data Handled (P : Type 0) : Type 0 where
  messaging : Handled P
  forwarded : Forwarded P → Handled P

module _ {E P : Type 0} (contains : Filter → ℕ → Bool)
    (bidirectional : P → Link → Outcome E (Unit {0})) where
  unfoldable pub handle_stream : Router P → Link → Handled P
  unfolding same_link forward
  handle_stream s link =
      if same_link link messaging_link
      then messaging
      else forwarded (forward contains bidirectional s link)

-- The messaging stream that a registered session is opened, if any: only the end that did not
-- initiate the session opens one. `opened` is what `Messaging` comes to.
unfoldable pub messaging_stream : {F T : Type 0} → Bool → Outcome F T → Option T
messaging_stream true opened = none
messaging_stream false (ok s) = some s
messaging_stream false (err e) = none
messaging_stream false panic = none

module _ {P : Type 0} where
  -- `removePeer`, and the session on which `Bye` is called, if there is one. A check of the leader follows.
  unfoldable pub remove_peer : Router P → ℕ → Router P × Option P
  remove_peer s peer =
      let (peers, gone) = PeerMap.remove s.peers peer in
      (record s { graph = PeerGraph.remove peer s.graph; peers = peers }, gone)

  -- The end of a client's session. The client set is generated anew after it.
  unfoldable pub remove_client : Router P → ℕ → Router P × Option P
  remove_client s client =
      let (clients, gone) = PeerMap.remove s.clients client in
      (record s { clients = clients }, gone)

  module _ (show_ip : List ℕ → String) where
    left : Router P → Outcome MetaError Meta → Router P
    left s (ok m) = (remove_peer s m.peer_id).0
    left s (err e) = s
    left s panic = s

    -- `NotifyLeave`; `name` is the name of the node itself in the gossip.
    unfoldable pub notify_leave : Router P → String → Node → Router P
    unfolding left remove_peer
    notify_leave s name node =
        if str_eq node.name name then s else left s (unmarshal show_ip blank node.meta)
