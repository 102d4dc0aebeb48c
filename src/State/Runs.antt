-- ===== src/State/Runs.antt =====
-- The theorems on the maps of peers at small maps.
use t.Prelude.{
  ℕ, ◌+◌, ◌*◌, ◌%◌, ◌^◌, ◌≡◌, refl, Bool, true, false, some, [], ◌∷◌, Outcome, ok, length, lookup,
  insert, HasDistinctKeys, ◌==◌, Map, arith,
}
use t.Multiplexer.Config.{Config}
use t.State.ConnectedClients.{Filter, ConnectedClients, IsConnectedClients}
use t.State.PeerGraph.{PeerGraph}
use t.Bytes.{word}
use t.State.PeerMap.{PeerMap, has}
use t.State.PeerMap.Checksum.{crc64}
use t.State.PeerMap.Checksum.Order.{crc64-has}
use t.State.PeerMap.Counter.{IsCounted}
use t.State.PeerMap.Interleaving.{System, run, start, step}
use t.State.PeerMap.Interleaving.Balance.{num_at_rest}
use t.State.PeerMap.Interleaving.Race.{both_at_once}

abbrev small_filter : Filter
small_filter = record {
  seed = 1;
  segment_length = 4;
  segment_length_mask = 3;
  segment_count = 1;
  segment_count_length = 4;
  fingerprints = 10 ∷ 20 ∷ [];
}

abbrev of_seven : ConnectedClients
of_seven = record { peer = 7; crc64 = 99; filter = small_filter }

of_seven-IsConnectedClients : IsConnectedClients of_seven
of_seven-IsConnectedClients = omega arith

abbrev graph : PeerGraph
graph = (7, of_seven) ∷ []

-- A filter that has the clients 10 and 20.
abbrev fingerprinted : Filter → ℕ → Bool
fingerprinted f k = k == 10

-- Sessions are numbers here, and the one registered constructor returns the peer's.
abbrev registry : Map (Config ℕ → Outcome (Unit {0}) ℕ)
registry = (1, λ c. ok c.peer) ∷ []

abbrev empty_map : PeerMap ℕ
empty_map = record { self = 1; peers = []; notify = []; num = 0 }

empty_map-IsCounted : IsCounted empty_map
empty_map-IsCounted = record { distinct = tt; counted = refl }

abbrev with_nine : Config ℕ
with_nine = record { has_logger = true; conn = some 5; peer = 9; initiator = false; wait = 1 }

abbrev nine_map : PeerMap ℕ
nine_map = record { self = 1; peers = (9, 90) ∷ []; notify = 90 ∷ []; num = 1 }

nine_map-IsCounted : IsCounted nine_map
unfolding lookup
nine_map-IsCounted = record { distinct = (refl, tt); counted = refl }

abbrev raced : System ℕ (Unit {0})
raced = run (start empty_map) (both_at_once (Unit {0}) 9 90 91)

num_at_rest_example :
    HasDistinctKeys raced.map.peers
    × (raced.map.num % 2 ^ 64 ≡ (length raced.map.peers + raced.replaced) % 2 ^ 64)
unfolding run step start lookup insert
num_at_rest_example =
    num_at_rest empty_map (both_at_once (Unit {0}) 9 90 91) empty_map-IsCounted refl refl

abbrev nine_and_four : PeerMap ℕ
nine_and_four = record { self = 1; peers = (9, 90) ∷ (4, 40) ∷ []; notify = []; num = 2 }

abbrev four_and_nine : PeerMap ℕ
four_and_nine = record { self = 2; peers = (4, 41) ∷ (9, 91) ∷ []; notify = []; num = 2 }

same_peers : (k : ℕ) → has nine_and_four k ≡ has four_and_nine k
unfolding has lookup
same_peers k = ground arith

-- A checksum that depends on the order.
crc64-has_example :
    crc64 0 (λ crc b. crc * 31 + length b + word b) (λ crc. crc) nine_and_four
    ≡ crc64 0 (λ crc b. crc * 31 + length b + word b) (λ crc. crc) four_and_nine
unfolding lookup
crc64-has_example =
    crc64-has 0 (λ crc b. crc * 31 + length b + word b) (λ crc. crc) nine_and_four four_and_nine
      (refl, (refl, tt)) (refl, (refl, tt)) same_peers
