-- ===== src/Server/Routing/Convergence.antt =====
-- server/server.go, gossip.go and backgroud.go: a push/pull between two nodes and the lookups after it.
use t.Prelude.{
  ℕ, ◌≡◌, ◌≢◌, ◌∙◌, Bool, true, false, none, some, List, [], ◌∷◌, ◌++◌, Outcome, ok, All, contains,
  ◌==◌, Bool-cases, lookup, insert, lookup-insert, HasDistinctKeys, insert-HasDistinctKeys, inl,
  inr, arith,
}
use t.Multiplexer.Link.{Link}
use t.State.ConnectedClients.{
  Filter, ConnectedClients, IsConnectedClients, client_bytes, new_connected_clients, marshal,
}
use t.State.ConnectedClients.RoundTrip.{connected_clients_roundtrip}
use t.State.PeerGraph.{PeerGraph, has, who}
use t.State.PeerGraph.Laws.{who_sound, replace_cases}
use t.State.PeerMap.{get, snapshot}
use t.Server.Routing.{
  Router, find_path, generate_connected_clients, local_state, merge_remote_state, handle_merge,
}

-- No set of the graph has the client: none of them is found under any peer.
none_has :
    (member : Filter → ℕ → Bool) (client k : ℕ) (g : PeerGraph) (d : ConnectedClients)
    → All (λ (e : ℕ × ConnectedClients). has member e.1 client ≡ false) g
    → lookup k g ≡ some d
    → has member d client ≡ false
unfolding lookup
none_has member client k [] d h e = ground arith
none_has member client k ((j, c) ∷ g) d (h, hs) e = ground (arith, none_has member client k g d hs)

-- `Who` answers with the one peer whose set has the client.
who_unique :
    (member : Filter → ℕ → Bool) (client k : ℕ) (g : PeerGraph) (c : ConnectedClients)
    → HasDistinctKeys g
    → lookup k g ≡ some c
    → has member c client ≡ true
    → ((j : ℕ) (d : ConnectedClients) → lookup j g ≡ some d → has member d client ≡ true → j ≡ k)
    → who member g client ≡ k
who_unique member client k g c dist e h only = elim (who_sound member client g dist) [
  | inl (d, found, there) ↦ only (who member g client) d found there
  | inr (zero', absent) ↦ cc (h, none_has member client k g c absent e)
]

module _ {P : Type 0} (a : Router P) (c : ConnectedClients) where
  merge-marshal :
      IsConnectedClients c
      → merge_remote_state a (marshal c) ≡ ok (record a { updates = a.updates ++ c ∷ [] })
  unfolding merge_remote_state marshal
  merge-marshal v = rw (connected_clients_roundtrip c v)

  -- A set of another peer, whose checksum is new for that peer, goes into the graph.
  handle_merge-new :
      a.updates ≡ []
      → c.peer ≢ a.id
      → ((d : ConnectedClients) → lookup c.peer a.graph ≡ some d → d.crc64 ≢ c.crc64)
      → handle_merge (record a { updates = c ∷ [] })
        ≡ record a { updates = []; graph = insert c.peer c a.graph }
  unfolding handle_merge
  handle_merge-new idle other fresh = elim (replace_cases c a.graph) [
    | inl (d, e, found, same) ↦ absurd (fresh d found same)
    | inr e ↦ ground (arith, e)
  ]

-- What the filter's library documents: a filter has every key that it was built from.
abbrev pub HasNoFalseNegatives :
    {E : Type 0} → (Filter → ℕ → Bool) → (List ℕ → Outcome E Filter) → Type 0
HasNoFalseNegatives member populate =
    (ks : List ℕ) (f : Filter) (k : ℕ)
    → populate ks ≡ ok f
    → contains ks k ≡ true
    → member f k ≡ true

module _ {P E : Type 0} (crc : List ℕ → ℕ) (populate : List ℕ → Outcome E Filter)
    (member : Filter → ℕ → Bool) (complete : HasNoFalseNegatives member populate) (a b : Router P)
    (f : Filter) where
  -- The set that `b` announces, once its filter is `f`.
  abbrev pub announced : ConnectedClients
  announced = record { peer = b.id; crc64 = crc (client_bytes (snapshot b.clients)); filter = f }

  generate-announced :
      populate (snapshot b.clients) ≡ ok f
      → local_state (generate_connected_clients crc populate b) ≡ marshal announced
  unfolding local_state generate_connected_clients new_connected_clients
  generate-announced built = rw built

  only_after :
      (k : ℕ)
      → ((j : ℕ) (d : ConnectedClients)
          → lookup j a.graph ≡ some d
          → has member d k ≡ true
          → j ≡ b.id)
      → (j : ℕ) (d : ConnectedClients) → lookup j (insert b.id announced a.graph) ≡ some d
      → has member d k ≡ true
      → j ≡ b.id
  only_after k only j d e h = elim (Bool-cases (b.id == j)) [
    | inl same ↦ ground arith
    | inr differs ↦ only j d (ground (arith, lookup-insert b.id j announced a.graph)) h
  ]

  -- `b` announces its clients and `a` merges the announcement: then `a` routes each client of `b`
  -- that is not its own to its session with `b`. This holds if the checksum is not that of the set
  -- which `a` had of `b`, `a` had nothing else to merge, and no other peer's set has the client.
  pub find_path-push_pull :
      (link : Link)
      → populate (snapshot b.clients) ≡ ok f
      → IsConnectedClients announced
      → a.updates ≡ []
      → b.id ≢ a.id
      → HasDistinctKeys a.graph
      → ((d : ConnectedClients)
          → lookup b.id a.graph ≡ some d
          → d.crc64 ≢ crc (client_bytes (snapshot b.clients)))
      → contains (snapshot b.clients) link.destination ≡ true
      → get a.clients link.destination ≡ none
      → ((j : ℕ) (d : ConnectedClients)
          → lookup j a.graph ≡ some d
          → has member d link.destination ≡ true
          → j ≡ b.id)
      → (s : Router P) × (merge_remote_state a
            (local_state (generate_connected_clients crc populate b))
          ≡ ok s)
        × (find_path member (handle_merge s) link ≡ get a.peers b.id)
  unfolding find_path has
  find_path-push_pull link built v idle other dist fresh there not_ours only =
      let c = announced in
      let k = link.destination in
      let merged = merge-marshal a c v in
      let found : lookup b.id (insert b.id c a.graph) ≡ some c =
        ground (arith, lookup-insert b.id b.id c a.graph) in
      let routed : who member (insert b.id c a.graph) k ≡ b.id =
        who_unique member k b.id (insert b.id c a.graph) c
          (insert-HasDistinctKeys b.id c a.graph dist) found
          (complete (snapshot b.clients) f k built there) (only_after k only) in
      (
        record a { updates = c ∷ [] },
        rw (generate-announced built) (merged ∙ rw idle),
        rw (handle_merge-new a c idle other fresh) (ground (arith, not_ours, routed)),
      )
