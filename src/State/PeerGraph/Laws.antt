-- ===== src/State/PeerGraph/Laws.antt =====
-- state/peer_graph.go: lookups after `Replace`, and `Who`.
use t.Prelude.{
  ℕ, ◌≡◌, ◌≢◌, refl, ◌⊎◌, inl, inr, Bool, true, false, some, [], ◌∷◌, All, ◌==◌, Bool-cases,
  Option-cases, lookup, insert, lookup-insert, HasDistinctKeys, arith,
}
use t.State.ConnectedClients.{Filter, ConnectedClients}
use t.State.PeerGraph.{PeerGraph, has, who, replace}

-- The graph is kept only if it has a set of the same checksum for the peer.
pub replace_cases :
    (c : ConnectedClients) (g : PeerGraph)
    → ((d : ConnectedClients) × (replace c g ≡ (g, false))
        × (lookup c.peer g ≡ some d)
        × (d.crc64 ≡ c.crc64))
      ⊎ (replace c g ≡ (insert c.peer c g, true))
unfolding replace
replace_cases c g = elim (Option-cases (lookup c.peer g)) [
  | inl e ↦ inr (ground (arith, e))
  | inr (d, e) ↦ elim (Bool-cases (d.crc64 == c.crc64)) [
    | inl same ↦ inl (d, ground (arith, e), e, ground arith)
    | inr differs ↦ inr (ground (arith, e))
  ]
]

-- After `Replace`, the announced peer has a client set with the announced checksum, every other
-- peer has the set that it had, and the graph is the old one unless it is reported as modified.
pub lookup-replace :
    (c : ConnectedClients) (g : PeerGraph)
    → ((d : ConnectedClients) × (lookup c.peer (replace c g).0 ≡ some d) × (d.crc64 ≡ c.crc64))
      × ((j : ℕ) → j ≢ c.peer → lookup j (replace c g).0 ≡ lookup j g)
      × ((replace c g).1 ≡ false → (replace c g).0 ≡ g)
lookup-replace c g = elim (replace_cases c g) [
  | inl (d, r, e, same) ↦ rw r ((d, e, same), (λ j h. refl), λ h. refl)
  | inr r ↦ rw r (
    (c, ground (arith, lookup-insert c.peer c.peer c g), refl),
    (λ j h. ground (arith, lookup-insert c.peer j c g)),
    λ h. cc,
  )
]

module _ (contains : Filter → ℕ → Bool) (client : ℕ) where
  -- `Who` answers with a peer of the graph whose set has the client, or else with 0, and then no
  -- set of the graph has the client.
  pub who_sound :
      (g : PeerGraph)
      → HasDistinctKeys g
      → ((d : ConnectedClients) × (lookup (who contains g client) g ≡ some d)
          × (has contains d client ≡ true))
        ⊎ ((who contains g client ≡ 0)
            × All (λ (e : ℕ × ConnectedClients). has contains e.1 client ≡ false) g)
  unfolding who lookup
  who_sound [] d = inr (refl, tt)
  who_sound ((k, c) ∷ g) (fresh, d) = elim (Bool-cases (has contains c client)) [
    | inl yes' ↦ inl (c, ground arith, yes')
    | inr no' ↦ elim (who_sound g d) [
      | inl (e, found, h) ↦ inl (e, ground (arith), h)
      | inr (z, h) ↦ inr (rw no' z, (no', h))
    ]
  ]
