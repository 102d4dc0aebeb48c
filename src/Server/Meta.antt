-- ===== src/Server/Meta.antt =====
-- server/meta.go: what a node says of itself in the gossip, in 26 bytes.
pub mod RoundTrip
use t.Prelude.{
  ℕ, Bool, false, ◌||◌, Option, none, some, String, List, [], ◌∷◌, ◌++◌, Outcome, ok, err, panic,
  length, ◌==◌, if◌then◌else◌,
}
use t.Bytes.{IsByte, IsU64, put_uint64, word, slice}

pub record Meta : Type 0 where
  pub connect_ip : String
  pub connect_port : ℕ
  pub peer_id : ℕ
  pub protocol : ℕ
  pub respond_only : Bool

abbrev pub meta_size : ℕ
meta_size = 26

-- The zero value, into which a buffer is unmarshalled.
abbrev pub blank : Meta
blank = record {
  connect_ip = "";
  connect_port = 0;
  peer_id = 0;
  protocol = 0;
  respond_only = false;
}

pub data MetaError : Type 0 where
  invalid_length : ℕ → MetaError

-- The buffer, with the four bytes of the address in front.
layout : List ℕ → Meta → List ℕ
unfolding put_uint64
layout ip m =
    ip
    ++ (0 ∷ 0 ∷ 0 ∷ 0 ∷ [])
    ++ put_uint64 m.connect_port
    ++ put_uint64 m.peer_id
    ++ m.protocol ∷ (if m.respond_only then 1 else 0) ∷ []

-- `parse_ip` is `net.ParseIP`: sixteen bytes, or none for nil, whose slice panics.
module _ (parse_ip : String → Option (List ℕ)) where
  unfoldable pub marshal : Meta → Outcome (Unit {0}) (List ℕ)
  unfolding layout
  marshal m = elim (parse_ip m.connect_ip) [
    | none ↦ panic
    | some ip ↦ ok (layout (slice ip 12 16) m)
  ]

-- `show_ip` is `To4().String()` on four bytes. The receiver's `respond_only` is set and never
-- cleared.
module _ (show_ip : List ℕ → String) where
  abbrev parse : Meta → List ℕ → Meta
  parse m b = record {
    connect_ip = show_ip (slice b 0 4);
    connect_port = word (slice b 8 16);
    peer_id = word (slice b 16 24);
    protocol = word (slice b 24 25);
    respond_only = word (slice b 25 26) == 1 || m.respond_only;
  }

  unfoldable pub unmarshal : Meta → List ℕ → Outcome MetaError Meta
  unfolding word
  unmarshal m b = if length b == meta_size then ok (parse m b) else err (invalid_length (length b))
