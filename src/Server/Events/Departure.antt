-- ===== src/Server/Events/Departure.antt =====
-- server/peers.go: where streams are sent after `removePeer`.
use t.Prelude.{ℕ, ◌≡◌, ◌≢◌, inl, inr, Bool, none, some, Option-cases, lookup, lookup-delete, arith}
use t.Multiplexer.Link.{Link}
use t.State.ConnectedClients.{Filter}
use t.State.PeerGraph
use t.State.PeerMap.{PeerMap, get, remove}
use t.Server.Routing.{Router, find_path}
use t.Server.Events.{remove_peer}

remove-get_of :
    {P : Type 0} (m : PeerMap P) (k j : ℕ) (q : P)
    → get (remove m k).0 j ≡ some q
    → (j ≢ k) × (get m j ≡ some q)
unfolding get remove
remove-get_of m k j q h = elim (Option-cases (lookup k m.peers)) [
  | inl e ↦ ground (arith, e, lookup-delete k j m.peers)
  | inr (p, e) ↦ ground (arith, e, lookup-delete k j m.peers)
]

-- After `removePeer`, a link to a client that is not the node's own is sent, if it is sent at all,
-- to the session of another peer that the node had.
pub find_path-remove_peer :
    {P : Type 0} (contains : Filter → ℕ → Bool) (s : Router P) (peer : ℕ) (link : Link) (q : P)
    → get s.clients link.destination ≡ none
    → find_path contains (remove_peer s peer).0 link ≡ some q
    → (j : ℕ) × (j ≢ peer) × (get s.peers j ≡ some q)
unfolding find_path remove_peer
find_path-remove_peer contains s peer link q foreign h =
    let j = PeerGraph.who contains (PeerGraph.remove peer s.graph) link.destination in
    let (other, there) = remove-get_of s.peers peer j q (ground (arith, foreign)) in
    (j, other, there)
