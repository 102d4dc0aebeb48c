-- ===== src/Server/Handshakes.antt =====
-- server/peers.go and clients.go: the four handlers of a new connection, by its transport and by who
-- is at the other end.
pub mod Closing
mod Runs
use t.Prelude.{ℕ, Bool, true, false, Option, none, some, List, Outcome, ok, err, panic, Map}
use t.Multiplexer.Config.{Config}
use t.Multiplexer.Protocol.{tls_protos, quic_protos}
use t.State.PeerMap.{PeerMap, crashed}
use t.Server.Negotiation.{NegotiationError, setting_up, peer_negotiation, client_negotiation}

-- The sessions afterwards, whether the connection was closed, and whether the handler panicked. Over
-- QUIC the connection is the session; the stream of the handshake is closed in any case.
pub record Handled (P : Type 0) : Type 0 where
  pub sessions : PeerMap P
  pub closed : Bool
  pub panicked : Bool

-- After an error the deferred function closes the connection. A panic leaves `err` nil, so that it
-- closes nothing.
abbrev pub handled : {E F P : Type 0} → PeerMap P × Option (NegotiationError E F) → Handled P
handled (s, none) = record { sessions = s; closed = false; panicked = false }
handled (s, some (setting_up crashed)) = record { sessions = s; closed = false; panicked = true }
handled (s, some e) = record { sessions = s; closed = true; panicked = false }

-- The QUIC handlers without a stream.
abbrev unopened : {P : Type 0} → PeerMap P → Handled P
unopened s = record { sessions = s; closed = true; panicked = false }

abbrev unopened_panic : {P : Type 0} → PeerMap P → Handled P
unopened_panic s = record { sessions = s; closed = false; panicked = true }

-- What a client's handshake needs of its connection besides the first read: the random name, and what
-- writing the reply and the host name comes to.
pub record Replies (F : Type 0) : Type 0 where
  pub name : List ℕ
  pub written : Outcome F ℕ
  pub encoded : Outcome F (Unit {0})

module _ {C E F P : Type 0} (registry : Map (Config C → Outcome E P)) (closes : P → ℕ → Bool)
    (self wait : ℕ) where
  unfoldable pub peer_tls_handshake : PeerMap P → C → Outcome F (List ℕ) → Handled P
  unfolding peer_negotiation
  peer_tls_handshake s conn got =
      handled (peer_negotiation registry closes self wait s conn tls_protos got)

  -- The handshake is read from the first stream; `stream` is an error if there is none.
  unfoldable pub peer_quic_handshake :
      PeerMap P → C → Outcome F (Unit {0}) → Outcome F (List ℕ) → Handled P
  unfolding peer_negotiation
  peer_quic_handshake s conn (ok _) got =
      handled (peer_negotiation registry closes self wait s conn quic_protos got)
  peer_quic_handshake s conn (err e) got = unopened s
  peer_quic_handshake s conn panic got = unopened_panic s

  unfoldable pub client_tls_handshake : PeerMap P → C → Replies F → Outcome F (List ℕ) → Handled P
  unfolding client_negotiation
  client_tls_handshake s conn r got = handled (
      client_negotiation registry closes self wait s conn r.name tls_protos got r.written r.encoded)

  unfoldable pub client_quic_handshake :
      PeerMap P → C → Replies F → Outcome F (Unit {0}) → Outcome F (List ℕ) → Handled P
  unfolding client_negotiation
  client_quic_handshake s conn r (ok _) got = handled (
      client_negotiation registry closes self wait s conn r.name quic_protos got r.written
        r.encoded)
  client_quic_handshake s conn r (err e) got = unopened s
  client_quic_handshake s conn r panic got = unopened_panic s
