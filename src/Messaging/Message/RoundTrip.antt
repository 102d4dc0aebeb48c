-- ===== src/Messaging/Message/RoundTrip.antt =====
-- messaging/message.go: `MarshalBinary` against `UnmarshalBinary` and against `ReadFrom`.
use t.Prelude.{ℕ, ◌≡◌, none, ok, length, arith}
use t.Bytes.{word-put_uint64, copy-make}
use t.Messaging.Message.{
  Message, IsMessage, header, marshal, unmarshal, message_header_length, Chunk, read_data,
  read_from,
}

-- Unmarshalling what `MarshalBinary` wrote for a message gives the message back.
pub message_roundtrip : (m : Message) → IsMessage m → unmarshal (marshal m) ≡ ok m
unfolding unmarshal marshal
message_roundtrip m v = ground (
  arith,
  word-put_uint64 (length m.payload),
  word-put_uint64 m.kind,
  word-put_uint64 m.from,
  copy-make m.payload,
)

length-header : (m : Message) → length (header m) ≡ message_header_length
unfolding header
length-header m = omega arith

module _ {E R : Type 0} (read : R → ℕ → Chunk E R) (m : Message) (v : IsMessage m) (r s u : R) where
  read_data-header :
      read s (length m.payload) ≡ record { bytes = m.payload; failure = none; rest = u }
      → read_data read (header m) s
        ≡ record { count = length (marshal m); reader = u; outcome = ok m }
  unfolding read_data marshal
  read_data-header second = ground (
    arith,
    word-put_uint64 (length m.payload),
    word-put_uint64 m.kind,
    word-put_uint64 m.from,
    second,
  )

  -- Two reads that deliver the header and the data of a message give that message, and count the
  -- bytes of both.
  pub read_from-marshal :
      read r message_header_length ≡ record { bytes = header m; failure = none; rest = s }
      → read s (length m.payload) ≡ record { bytes = m.payload; failure = none; rest = u }
      → read_from read r ≡ record { count = length (marshal m); reader = u; outcome = ok m }
  unfolding read_from
  read_from-marshal first second =
      rw (first, read_from) (ground (arith, length-header m, read_data-header second))
