-- ===== src/State/PeerMap/Checksum.antt =====
-- state/peer_map.go: `CRC64`, by which two nodes can tell whether they know the same peers.
pub mod Order
use t.Prelude.{ℕ, List, [], ◌∷◌, ltb, if◌then◌else◌}
use t.Bytes.{put_uint64}
use t.State.PeerMap.{PeerMap, snapshot}

-- `sort.SliceStable`, by the order of the identifiers.
unfoldable pub insert_sorted : ℕ → List ℕ → List ℕ
insert_sorted peer [] = peer ∷ []
insert_sorted peer (low ∷ rest) =
    if ltb low peer then low ∷ insert_sorted peer rest else peer ∷ low ∷ rest

unfoldable pub sorted : List ℕ → List ℕ
unfolding insert_sorted
sorted [] = []
sorted (peer ∷ peers) = insert_sorted peer (sorted peers)

-- The checksum of hash/crc64: `H` is its state, `empty` the one at the start.
module _ {H : Type 0} (empty : H) (write : H → List ℕ → H) (sum : H → ℕ) where
  pub write_all : H → List ℕ → H
  write_all crc [] = crc
  write_all crc (peer ∷ peers) = write_all (write crc (put_uint64 peer)) peers

  unfoldable pub crc64 : {P : Type 0} → PeerMap P → ℕ
  unfolding sorted write_all
  crc64 s = sum (write_all empty (sorted (snapshot s)))
