-- ===== src/State/PeerGraph.antt =====
-- state/peer_graph.go: for each peer, the client set that it last announced.
pub mod Laws
use t.Prelude.{
  ℕ, Bool, true, false, not, Option, none, some, List, [], ◌∷◌, ◌==◌, if◌then◌else◌, Map, lookup,
  insert, delete,
}
use t.State.ConnectedClients.{Filter, ConnectedClients}

-- A `sync.Map` from peers to client sets, in the order in which `Range` visits it.
abbrev pub PeerGraph : Type 0
PeerGraph = Map ConnectedClients

-- `contains` is `Contains` of the filter.
module _ (contains : Filter → ℕ → Bool) where
  unfoldable pub has : ConnectedClients → ℕ → Bool
  has c client = contains c.filter client

  -- 0 if no peer has the client.
  unfoldable pub who : PeerGraph → ℕ → ℕ
  unfolding has
  who [] client = 0
  who ((peer, c) ∷ g) client = if has c client then peer else who g client

unfoldable pub remove : ℕ → PeerGraph → PeerGraph
remove = delete

-- The new graph, and whether it was modified.
pub replace : ConnectedClients → PeerGraph → PeerGraph × Bool
replace c g = elim (lookup c.peer g) [
  | none ↦ (insert c.peer c g, true)
  | some old ↦ if old.crc64 == c.crc64 then (g, false) else (insert c.peer c g, true)
]
