-- ===== src/Multiplexer/Link.antt =====
-- multiplexer/link.go: the fixed-size record that opens each handshake.
pub mod RoundTrip
mod Runs
use t.Prelude.{ℕ, ◌+◌, List, [], ◌∷◌, ◌++◌, Outcome, ok, err, length, ◌==◌, if◌then◌else◌}
use t.Bytes.{IsByte, IsU64, put_uint64, word, slice}

abbrev pub link_size : ℕ
link_size = 18

-- `Protocol` and `ALPN` are bytes.
pub record Link : Type 0 where
  pub source : ℕ
  pub destination : ℕ
  pub protocol : ℕ
  pub alpn : ℕ

-- What the field types of the Go struct guarantee.
pub record IsLink (l : Link) : Type 0 where
  pub source_fits : IsU64 l.source
  pub destination_fits : IsU64 l.destination
  pub protocol_fits : IsByte l.protocol
  pub alpn_fits : IsByte l.alpn

abbrev pub messaging_link : Link
messaging_link = record { source = 0; destination = 0; protocol = 0; alpn = 0 }

-- `invalid buffer length: %d`
pub data LinkError : Type 0 where
  invalid_length : ℕ → LinkError

unfoldable pub marshal : Link → List ℕ
unfolding put_uint64
marshal l = put_uint64 l.source ++ put_uint64 l.destination ++ l.protocol ∷ l.alpn ∷ []

-- `b[i]`, within the buffer
abbrev pub byte_at : List ℕ → ℕ → ℕ
byte_at b i = word (slice b i (i + 1))

abbrev parse : List ℕ → Link
parse b = record {
  source = word (slice b 0 8);
  destination = word (slice b 8 16);
  protocol = byte_at b 16;
  alpn = byte_at b 17;
}

unfoldable pub unmarshal : List ℕ → Outcome LinkError Link
unfolding word
unmarshal b = if length b == link_size then ok (parse b) else err (invalid_length (length b))

unfoldable pub flip : Link → Link
flip l = record l { source = l.destination; destination = l.source }
