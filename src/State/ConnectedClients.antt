-- ===== src/State/ConnectedClients.antt =====
-- state/connected_clients.go: the set of a peer's clients, as a filter of fixed layout with a
-- checksum, and its bytes.
pub mod RoundTrip
use t.Prelude.{
  ℕ, ◌<◌, ◌^◌, List, [], ◌∷◌, ◌++◌, Outcome, ok, err, panic, ◌>>=◌, length, drop, ltb, leb,
  if◌then◌else◌,
}
use t.Bytes.{IsU64, IsU32, put_uint64, put_uint32, word, slice, make, copy}
use t.Messaging.Message.{fits_int}

-- The fields of `xorfilter.BinaryFuse8` that go over the wire.
pub record Filter : Type 0 where
  pub seed : ℕ
  pub segment_length : ℕ
  pub segment_length_mask : ℕ
  pub segment_count : ℕ
  pub segment_count_length : ℕ
  pub fingerprints : List ℕ

pub record ConnectedClients : Type 0 where
  pub peer : ℕ
  pub crc64 : ℕ
  pub filter : Filter

-- What the field types guarantee.
pub record IsConnectedClients (c : ConnectedClients) : Type 0 where
  pub peer_fits : IsU64 c.peer
  pub crc64_fits : IsU64 c.crc64
  pub seed_fits : IsU64 c.filter.seed
  pub segment_length_fits : IsU32 c.filter.segment_length
  pub segment_length_mask_fits : IsU32 c.filter.segment_length_mask
  pub segment_count_fits : IsU32 c.filter.segment_count
  pub segment_count_length_fits : IsU32 c.filter.segment_count_length
  pub length_fits : length c.filter.fingerprints < 2 ^ 63

-- The clients in the order of the snapshot, eight bytes each: what the checksum is taken of.
unfoldable pub client_bytes : List ℕ → List ℕ
client_bytes [] = []
client_bytes (c ∷ cs) = put_uint64 c ++ client_bytes cs

-- `crc` is the CRC64 of `hash/crc64`, `populate` is `xorfilter.PopulateBinaryFuse8`.
module _ {E : Type 0} (crc : List ℕ → ℕ) (populate : List ℕ → Outcome E Filter) where
  unfoldable pub new_connected_clients : ℕ → List ℕ → Outcome E ConnectedClients
  new_connected_clients peer clients = do
    f ← populate clients
    ok (record { peer = peer; crc64 = crc (client_bytes clients); filter = f })

unfoldable pub marshal : ConnectedClients → List ℕ
unfolding put_uint64 put_uint32
marshal c =
    put_uint64 c.peer
    ++ put_uint64 c.crc64
    ++ put_uint64 c.filter.seed
    ++ put_uint32 c.filter.segment_length
    ++ put_uint32 c.filter.segment_length_mask
    ++ put_uint32 c.filter.segment_count
    ++ put_uint32 c.filter.segment_count_length
    ++ put_uint64 (length c.filter.fingerprints)
    ++ c.filter.fingerprints

abbrev pub header_length : ℕ
header_length = 48

pub data ClientsError : Type 0 where
  invalid_length : ℕ → ClientsError

abbrev parse : List ℕ → ConnectedClients
parse b = record {
  peer = word (slice b 0 8);
  crc64 = word (slice b 8 16);
  filter = record {
    seed = word (slice b 16 24);
    segment_length = word (slice b 24 28);
    segment_length_mask = word (slice b 28 32);
    segment_count = word (slice b 32 36);
    segment_count_length = word (slice b 36 40);
    fingerprints = copy (make (word (slice b 40 48))) (drop header_length b);
  };
}

-- `make` panics where the length, read as a signed integer, is negative.
unfoldable pub unmarshal : List ℕ → Outcome ClientsError ConnectedClients
unfolding word
unmarshal b =
    if ltb (length b) header_length
    then err (invalid_length (length b))
    else if fits_int (word (slice b 40 48))
    then ok (parse b)
    else panic
