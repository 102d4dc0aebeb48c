-- ===== src/Messaging/Message.antt =====
-- messaging/message.go: a message, its bytes, and reading one from a connection.
pub mod RoundTrip
use t.Prelude.{
  ℕ, ◌+◌, ◌^◌, ◌<◌, Bool, ◌&&◌, Option, none, some, List, [], ◌∷◌, ◌++◌, Outcome, ok, err, panic,
  length, drop, ltb, leb, ◌==◌, if◌then◌else◌,
}
use t.Bytes.{IsU64, put_uint64, word, slice, make, copy}

-- `kind` is the field `Type`, a 64-bit `int`, as the bit pattern that goes over the wire.
pub record Message : Type 0 where
  pub kind : ℕ
  pub from : ℕ
  pub payload : List ℕ

abbrev pub message_unknown : ℕ
message_unknown = 0

abbrev pub message_acme_account_key : ℕ
message_acme_account_key = 1

abbrev pub message_client_certs : ℕ
message_client_certs = 2

abbrev pub message_test : ℕ
message_test = 3

abbrev pub message_request_reply : ℕ
message_request_reply = 4

abbrev pub message_header_length : ℕ
message_header_length = 24

-- What the field types guarantee; a slice is shorter than 2 ^ 63.
pub record IsMessage (m : Message) : Type 0 where
  pub kind_fits : IsU64 m.kind
  pub from_fits : IsU64 m.from
  pub length_fits : length m.payload < 2 ^ 63

unfoldable pub header : Message → List ℕ
unfolding put_uint64
header m = put_uint64 (length m.payload) ++ put_uint64 m.kind ++ put_uint64 m.from

unfoldable pub marshal : Message → List ℕ
unfolding header
marshal m = header m ++ m.payload

-- `make([]byte, n)` panics where `n`, read as a signed integer, is negative.
abbrev pub fits_int : ℕ → Bool
fits_int n = ltb n (2 ^ 63)

unfoldable pub unmarshal : List ℕ → Outcome (Unit {0}) Message
unfolding word
unmarshal b =
    let dl = word (slice b 0 8) in
    if leb message_header_length (length b) && fits_int dl
    then ok (record {
      kind = word (slice b 8 16);
      from = word (slice b 16 message_header_length);
      payload = copy (make dl) (drop message_header_length b);
    })
    else panic

pub data ReadError (E : Type 0) : Type 0 where
  reading_header : E → ReadError E
  invalid_length : ℕ → ReadError E
  reading_data : E → ReadError E
  incomplete_data : ReadError E

-- One `Read(p)`: at most `len(p)` bytes, and an error or none.
pub record Chunk (E R : Type 0) : Type 0 where
  pub bytes : List ℕ
  pub failure : Option E
  pub rest : R

-- What `ReadFrom` leaves behind: the bytes counted, the reader, and the message or an error.
pub record Receipt (E R : Type 0) : Type 0 where
  pub count : ℕ
  pub reader : R
  pub outcome : Outcome (ReadError E) Message

-- `read` is the `Read` of the connection.
module _ {E R : Type 0} (read : R → ℕ → Chunk E R) where
  read_data : List ℕ → R → Receipt E R
  unfolding word
  read_data head r =
      let x = length head in
      let dl = word (slice head 0 8) in
      let c = read r dl in
      let m : Message = record {
        kind = word (slice head 8 16);
        from = word (slice head 16 message_header_length);
        payload = c.bytes;
      } in
      let n = length c.bytes in
      if fits_int dl
      then elim c.failure [
        | some e ↦ record { count = x + n; reader = c.rest; outcome = err (reading_data e) }
        | none ↦
            if n == dl
            then record { count = x + n; reader = c.rest; outcome = ok m }
            else record { count = x + n; reader = c.rest; outcome = err incomplete_data }
      ]
      else record { count = x; reader = r; outcome = panic }

  unfoldable pub read_from : R → Receipt E R
  unfolding read_data
  read_from r =
      let c = read r message_header_length in
      let l = length c.bytes in
      elim c.failure [
        | some e ↦ record { count = l; reader = c.rest; outcome = err (reading_header e) }
        | none ↦
            if l == message_header_length
            then read_data c.bytes c.rest
            else record { count = l; reader = c.rest; outcome = err (invalid_length l) }
      ]
