-- ===== src/Server/Gossip/Initiator.antt =====
-- server/gossip.go: `shouldReachOut`, `NotifyJoin` and the reconciliation at both ends of a pair of
-- nodes.
use t.Prelude.{
  ℕ, ◌≡◌, ◌≢◌, sym, true, false, not, ◌&&◌, ◌⊎◌, inl, inr, Bool-cases, String, List, [], ◌∷◌, ok,
  str_eq, if◌then◌else◌, arith,
}
use t.State.PeerMap.{has}
use t.Server.Meta.{Meta, blank, unmarshal}
use t.Server.Gossip.{
  Node, Local, responder, dial, should_reach_out, joined, notify_join, peer_reconciliation,
  reconcile_from, visit, after_read, reconnect,
}

-- Of two nodes with different identifiers, not both of which only respond, exactly one reaches out
-- to the other.
pub should_reach_out-not :
    (a b : Meta)
    → a.peer_id ≢ b.peer_id
    → (a.respond_only && b.respond_only) ≡ false
    → should_reach_out a b ≡ not (should_reach_out b a)
unfolding should_reach_out
should_reach_out-not a b differ some_dials = ground arith

-- What one end does about the other: at the join, and in a reconciliation in which it is the only
-- other node.
pub record Dials (show_ip : List ℕ → String) {P : Type 0} (s : Local P) (n : Node) (m : Meta)
    : Type 0 where
  pub at_join : notify_join show_ip s n ≡ dial m
  pub later :
      peer_reconciliation show_ip s (n ∷ []) ≡ (if has s.peers m.peer_id then [] else m ∷ [])

pub record Waits (show_ip : List ℕ → String) {P : Type 0} (s : Local P) (n : Node) : Type 0 where
  pub at_join : notify_join show_ip s n ≡ responder
  pub later : peer_reconciliation show_ip s (n ∷ []) ≡ []

module _ (show_ip : List ℕ → String) {P : Type 0} (s : Local P) (n : Node) (m : Meta) where
  reaches-Dials :
      n.is_alive ≡ true
      → str_eq n.name s.name ≡ false
      → unmarshal show_ip blank n.meta ≡ ok m
      → m.peer_id ≢ s.mine.peer_id
      → should_reach_out s.mine m ≡ true
      → Dials show_ip s n m
  unfolding notify_join joined peer_reconciliation reconcile_from visit after_read reconnect
  reaches-Dials alive other read differ reaches = record {
    at_join = ground (arith, read, reaches);
    later = ground (arith, read, reaches);
  }

  leaves-Waits :
      n.is_alive ≡ true
      → str_eq n.name s.name ≡ false
      → unmarshal show_ip blank n.meta ≡ ok m
      → m.peer_id ≢ s.mine.peer_id
      → should_reach_out s.mine m ≡ false
      → Waits show_ip s n
  unfolding notify_join joined peer_reconciliation reconcile_from visit after_read reconnect
  leaves-Waits alive other read differ leaves = record {
    at_join = ground (arith, read, leaves);
    later = ground (arith, read, leaves);
  }

module _ (show_ip : List ℕ → String) {P : Type 0} (s t : Local P) (n m : Node) where
  -- Two nodes that are alive learn of each other: each is announced to the other under a name that
  -- is not the other's, with bytes that are read as its description; they have different identifiers
  -- and do not both only respond. Then it is one and the same of them that dials the other: at the
  -- join it starts `connectPeer` with the description of the other, and a reconciliation of the two
  -- dials it again unless there is a session with it by then; and the other one leaves the dialling
  -- to it, both times.
  pub joins_dial_once :
      n.is_alive ≡ true
      → m.is_alive ≡ true
      → str_eq n.name s.name ≡ false
      → str_eq m.name t.name ≡ false
      → unmarshal show_ip blank n.meta ≡ ok t.mine
      → unmarshal show_ip blank m.meta ≡ ok s.mine
      → s.mine.peer_id ≢ t.mine.peer_id
      → (s.mine.respond_only && t.mine.respond_only) ≡ false
      → (Dials show_ip s n t.mine × Waits show_ip t m)
        ⊎ (Waits show_ip s n × Dials show_ip t m s.mine)
  joins_dial_once alive alive' other other' read read' differ some_dials =
      let opposite = should_reach_out-not s.mine t.mine differ some_dials in
      elim (Bool-cases (should_reach_out s.mine t.mine)) [
        | inl reaches ↦ inl (
          reaches-Dials show_ip s n t.mine alive other read (λ e. differ (sym e)) reaches,
          leaves-Waits show_ip t m s.mine alive' other' read' differ (ground (arith, opposite)),
        )
        | inr leaves ↦ inr (
          leaves-Waits show_ip s n t.mine alive other read (λ e. differ (sym e)) leaves,
          reaches-Dials show_ip t m s.mine alive' other' read' differ (ground (arith, opposite)),
        )
      ]
