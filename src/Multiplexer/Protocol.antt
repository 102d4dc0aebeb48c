-- ===== src/Multiplexer/Protocol.antt =====
-- multiplexer/protocol/protocol.go, and the protocol sets of the two listeners. A `Protocol` is a
-- byte.
pub mod Registry
use t.Prelude.{ℕ, List, [], ◌∷◌}

abbrev pub unknown : ℕ
unknown = 0

abbrev pub yamux : ℕ
yamux = 1

abbrev pub mplex : ℕ
mplex = 2

abbrev pub quic : ℕ
quic = 3

abbrev pub tls_protos : List ℕ
tls_protos = yamux ∷ mplex ∷ []

abbrev pub quic_protos : List ℕ
quic_protos = quic ∷ []
