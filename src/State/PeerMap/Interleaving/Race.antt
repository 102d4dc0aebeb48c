-- ===== src/State/PeerMap/Interleaving/Race.antt =====
-- state/peer_map.go: two calls of `NewPeer` for one peer at once.
use t.Prelude.{ℕ, List, [], ◌∷◌, ok}
use t.State.PeerMap.{PeerMap}
use t.State.PeerMap.Interleaving.{Event, begin, go}

-- Both calls look up, both negotiate, then the first ends and the second ends.
abbrev pub both_at_once : {P : Type 0} (E : Type 0) → ℕ → P → P → List (Event P E)
both_at_once E k p q =
    begin k
    ∷ begin k
    ∷ go 0 (ok p)
    ∷ go 1 (ok q)
    ∷ go 0 (ok p)
    ∷ go 1 (ok q)
    ∷ go 0 (ok p)
    ∷ go 0 (ok p)
    ∷ go 0 (ok p)
    ∷ go 1 (ok q)
    ∷ go 1 (ok q)
    ∷ go 1 (ok q)
    ∷ []
