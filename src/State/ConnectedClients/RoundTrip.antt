-- ===== src/State/ConnectedClients/RoundTrip.antt =====
-- state/connected_clients.go: `MarshalBinary` against `UnmarshalBinary`.
use t.Prelude.{◌≡◌, ok, length, arith}
use t.Bytes.{word-put_uint64, word-put_uint32, copy-make}
use t.State.ConnectedClients.{ConnectedClients, IsConnectedClients, marshal, unmarshal}

-- Unmarshalling what `MarshalBinary` wrote for a client set gives the client set back.
pub connected_clients_roundtrip :
    (c : ConnectedClients) → IsConnectedClients c → unmarshal (marshal c) ≡ ok c
unfolding unmarshal marshal
connected_clients_roundtrip c v = ground (
  arith,
  word-put_uint64 c.peer,
  word-put_uint64 c.crc64,
  word-put_uint64 c.filter.seed,
  word-put_uint32 c.filter.segment_length,
  word-put_uint32 c.filter.segment_length_mask,
  word-put_uint32 c.filter.segment_count,
  word-put_uint32 c.filter.segment_count_length,
  word-put_uint64 (length c.filter.fingerprints),
  copy-make c.filter.fingerprints,
)
