-- ===== src/Server/Gossip.antt =====
-- server/gossip.go: who dials whom, on a join and in the periodic reconciliation.
pub mod Initiator
pub mod Reconciliation
use t.Prelude.{
  ℕ, Bool, true, false, not, ◌&&◌, ◌||◌, Option, none, some, String, List, [], ◌∷◌, ◌++◌, Outcome,
  ok, err, panic, ltb, ◌==◌, str_eq, if◌then◌else◌,
}
use t.State.PeerMap.{PeerMap, has}
use t.Server.Meta.{Meta, MetaError, blank, unmarshal}

-- `mine` is the description of the node itself; its identifier is `PeerID()`.
unfoldable pub should_reach_out : Meta → Meta → Bool
should_reach_out mine m =
    if mine.respond_only
    then false
    else if not m.respond_only && ltb m.peer_id mine.peer_id
    then false
    else true

-- A `memberlist.Node`, as far as it is read.
pub record Node : Type 0 where
  pub is_alive : Bool
  pub name : String
  pub meta : List ℕ

-- What a node knows of itself: its description, its name in the gossip, its sessions with peers.
pub record Local (P : Type 0) : Type 0 where
  pub mine : Meta
  pub name : String
  pub peers : PeerMap P

-- What comes of a join: the node is passed over, the process ends, the peer is left to dial, or
-- `connectPeer` is started.
pub data Joined : Type 0 where
  ignored : Joined
  fatal : Joined
  responder : Joined
  dial : Meta → Joined

module _ (show_ip : List ℕ → String) {P : Type 0} (s : Local P) where
  joined : Meta → Joined
  joined m =
      if m.peer_id == s.mine.peer_id
      then fatal
      else if should_reach_out s.mine m
      then dial m
      else responder

  unfoldable pub notify_join : Node → Joined
  unfolding joined
  notify_join node =
      if str_eq node.name s.name then ignored else elim (unmarshal show_ip blank node.meta) [
        | ok m ↦ joined m
        | err e ↦ ignored
        | panic ↦ ignored
      ]

  -- The peer to dial for a node that was read as `m`, if any.
  unfoldable pub reconnect : Meta → List Meta
  reconnect m =
      if m.peer_id == s.mine.peer_id
      then []
      else if not (has s.peers m.peer_id) && should_reach_out s.mine m
      then m ∷ []
      else []

  after_read : Meta → Outcome MetaError Meta → Meta × List Meta
  after_read m (ok m') = (m', reconnect m')
  after_read m (err e) = (m, [])
  after_read m panic = (m, [])

  -- One round of the loop: the variable `m`, which is declared before the loop, and the dials.
  visit : Meta → Node → Meta × List Meta
  visit m node =
      if not node.is_alive
      then (m, [])
      else if str_eq node.name s.name
      then (m, [])
      else after_read m (unmarshal show_ip m node.meta)

  reconcile_from : Meta → List Node → List Meta
  reconcile_from m [] = []
  reconcile_from m (node ∷ nodes) =
      let (m', dials) = visit m node in dials ++ reconcile_from m' nodes

  -- The peers that one run of `peerReconciliation` dials.
  unfoldable pub peer_reconciliation : List Node → List Meta
  unfolding reconcile_from visit after_read reconnect
  peer_reconciliation nodes = reconcile_from blank nodes
