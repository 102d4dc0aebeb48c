-- ===== src/Server/Gossip/Reconciliation.antt =====
-- server/gossip.go: what a run of `peerReconciliation` dials.
use t.Prelude.{
  ℕ, ◌<◌, ◌≡◌, refl, true, false, not, String, List, [], ◌∷◌, ◌++◌, Outcome, ok, err, panic, All,
  str_eq, if◌then◌else◌, arith,
}
use t.State.PeerMap.{has}
use t.Server.Meta.{Meta, MetaError, blank, unmarshal}
use t.Server.Gossip.{
  Node, Local, responder, should_reach_out, notify_join, reconnect, after_read, visit,
  reconcile_from, peer_reconciliation,
}

-- The receiver shows only in `respond_only`.
unmarshal_fresh :
    (show_ip : List ℕ → String) (m : Meta) (b : List ℕ)
    → m.respond_only ≡ false
    → unmarshal show_ip m b ≡ unmarshal show_ip blank b
unfolding unmarshal
unmarshal_fresh show_ip m b h = rw h

unmarshal_sticky :
    (show_ip : List ℕ → String) (m x : Meta) (b : List ℕ)
    → m.respond_only ≡ true
    → unmarshal show_ip blank b ≡ ok x
    → unmarshal show_ip m b ≡ ok (record x { respond_only = true })
unfolding unmarshal
unmarshal_sticky show_ip m x b h e = ground arith

module _ (show_ip : List ℕ → String) {P : Type 0} (s : Local P) where
  abbrev dials_of : Outcome MetaError Meta → List Meta
  dials_of (ok m) = reconnect show_ip s m
  dials_of (err e) = []
  dials_of panic = []

  -- What the loop does for one node on its own: nothing for a node that is not alive, that has our
  -- name, or whose description is no description; else `reconnect` of the description.
  abbrev pub dials_for : Node → List Meta
  dials_for node =
      if not node.is_alive
      then []
      else if str_eq node.name s.name
      then []
      else dials_of (unmarshal show_ip blank node.meta)

  abbrev pub all_dials : List Node → List Meta
  all_dials [] = []
  all_dials (node ∷ nodes) = dials_for node ++ all_dials nodes

  abbrev MayDial : Outcome MetaError Meta → Type 0
  MayDial (ok m) = m.respond_only ≡ false
  MayDial _ = Unit

  -- The node does not describe itself as one that only responds.
  abbrev pub Dials : Node → Type 0
  Dials node = MayDial (unmarshal show_ip blank node.meta)

  after_read-fresh :
      (m : Meta) (o : Outcome MetaError Meta)
      → m.respond_only ≡ false
      → MayDial o
      → ((after_read show_ip s m o).0.respond_only ≡ false)
        × ((after_read show_ip s m o).1 ≡ dials_of o)
  unfolding after_read
  after_read-fresh m (ok x) h d = (d, refl)
  after_read-fresh m (err e) h d = (h, refl)
  after_read-fresh m panic h d = (h, refl)

  visit-fresh :
      (m : Meta) (node : Node)
      → m.respond_only ≡ false
      → Dials node
      → ((visit show_ip s m node).0.respond_only ≡ false)
        × ((visit show_ip s m node).1 ≡ dials_for node)
  unfolding visit
  visit-fresh m node h d =
      let read = after_read-fresh m (unmarshal show_ip blank node.meta) h d in
      rw (unmarshal_fresh show_ip m node.meta h) (ground (arith, read))

  reconcile_from-fresh :
      (m : Meta) (nodes : List Node)
      → m.respond_only ≡ false
      → All Dials nodes
      → reconcile_from show_ip s m nodes ≡ all_dials nodes
  unfolding reconcile_from
  reconcile_from-fresh m [] h d = refl
  reconcile_from-fresh m (node ∷ nodes) h (d, ds) =
      let (k, e) = visit-fresh m node h d in
      rw (e, reconcile_from-fresh (visit show_ip s m node).0 nodes k ds)

  -- If no known node describes itself as one that only responds, a run of the reconciliation dials
  -- for each node what that node's own description calls for, in the order of the nodes.
  pub peer_reconciliation_lem :
      (nodes : List Node) → All Dials nodes → peer_reconciliation show_ip s nodes ≡ all_dials nodes
  unfolding peer_reconciliation
  peer_reconciliation_lem nodes d = reconcile_from-fresh blank nodes refl d

  visit_read :
      (m x : Meta) (node : Node)
      → node.is_alive ≡ true
      → str_eq node.name s.name ≡ false
      → unmarshal show_ip m node.meta ≡ ok x
      → visit show_ip s m node ≡ (x, reconnect show_ip s x)
  unfolding visit after_read
  visit_read m x node alive other read = ground (arith, read)

  -- A peer that is read as one that only responds is dialled whatever its identifier is.
  reconnect_lower :
      (n : Meta)
      → has s.peers n.peer_id ≡ false
      → s.mine.respond_only ≡ false
      → n.peer_id < s.mine.peer_id
      → reconnect show_ip s (record n { respond_only = true })
        ≡ record n { respond_only = true } ∷ []
  unfolding reconnect should_reach_out
  reconnect_lower n absent active lower = ground arith

  -- Of two nodes that are alive, under names that are not that of the node itself, the first only
  -- responds and the second does not; the second has a lower identifier than the node itself, which
  -- does not only respond and has no session with it. Then a join of the second leaves it to dial;
  -- but a reconciliation of the two, in this order, reads the second as one that only responds as
  -- well, and dials it after what the first calls for.
  pub reconciliation_sticky :
      (first second : Node) (m n : Meta)
      → first.is_alive ≡ true
      → str_eq first.name s.name ≡ false
      → unmarshal show_ip blank first.meta ≡ ok m
      → m.respond_only ≡ true
      → second.is_alive ≡ true
      → str_eq second.name s.name ≡ false
      → unmarshal show_ip blank second.meta ≡ ok n
      → n.respond_only ≡ false
      → n.peer_id < s.mine.peer_id
      → has s.peers n.peer_id ≡ false
      → s.mine.respond_only ≡ false
      → (notify_join show_ip s second ≡ responder)
        × (peer_reconciliation show_ip s (first ∷ second ∷ [])
            ≡ reconnect show_ip s m ++ record n { respond_only = true } ∷ [])
  unfolding notify_join peer_reconciliation should_reach_out
  reconciliation_sticky first second m n a1 n1 u1 r1 a2 n2 u2 r2 lower absent active =
      let n' : Meta = record n { respond_only = true } in
      let v1 = visit_read blank m first a1 n1 u1 in
      let v2 = visit_read m n' second a2 n2 (unmarshal_sticky show_ip m n second.meta r1 u2) in
      let one = reconnect_lower n' absent active lower in (ground (arith, u2), rw (v1, v2, one))
