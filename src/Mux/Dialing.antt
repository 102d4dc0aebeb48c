-- ===== src/Mux/Dialing.antt =====
-- mux/: the dialers that the three kinds of session register (dialYamux, dialMplex, dialQuic), and what
-- multiplexer/dialer.go says that a dialer gives.
use t.Prelude.{ℕ, Option, none, some, String, [], Map}
use t.Multiplexer.Protocol
use t.Multiplexer.Protocol.Registry.{register}
use t.Mux.Quic.{QuicConn, wrap_quic}

-- What the network answers.
pub data Answer (F A : Type 0) : Type 0 where
  got : A → Answer F A
  failed : F → Answer F A

-- The connection on which a handshake is made: a connection over TLS, or a stream of a session.
pub data Handshake (C T : Type 0) : Type 0 where
  over_tls : C → Handshake C T
  over_quic : QuicConn C T → Handshake C T

-- The results of a dialer: the connector, the connection for the handshake, what the closer closes,
-- and the error. All but the last may be nil.
pub record Dialled (C F T : Type 0) : Type 0 where
  pub connector : Option C
  pub handshake : Option (Handshake C T)
  pub closer : Option C
  pub error : Option F

module _ {C F T : Type 0} where
  -- `tls` is what dialling over TLS comes to.
  unfoldable pub dial_yamux : Answer F C → Dialled C F T
  dial_yamux (failed e) = record {
    connector = none;
    handshake = none;
    closer = none;
    error = some e;
  }
  dial_yamux (got conn) = record {
    connector = some conn;
    handshake = some (over_tls conn);
    closer = some conn;
    error = none;
  }

  unfoldable pub dial_mplex : Answer F C → Dialled C F T
  unfolding dial_yamux
  dial_mplex = dial_yamux

  -- A session, and then a stream of it for the handshake.
  unfoldable pub dial_quic : Answer F C → Answer F T → Dialled C F T
  unfolding wrap_quic
  dial_quic (failed e) stream = record {
    connector = none;
    handshake = none;
    closer = none;
    error = some e;
  }
  dial_quic (got session) (failed e) = record {
    connector = none;
    handshake = none;
    closer = some session;
    error = some e;
  }
  dial_quic (got session) (got stream) = record {
    connector = some session;
    handshake = some (over_quic (wrap_quic (some session) stream));
    closer = some session;
    error = none;
  }

-- The network: dialling an address over TLS, dialling it over QUIC, and opening a stream of a session.
pub record Net (C F T : Type 0) : Type 0 where
  pub tls : String → ℕ → Answer F C
  pub quic : String → ℕ → Answer F C
  pub open_stream : C → Answer F T

abbrev pub Dialer : Type 0 → Type 0 → Type 0 → Type 0
Dialer C F T = String → ℕ → Dialled C F T

module _ {C F T : Type 0} (net : Net C F T) where
  -- The stream of a session that was not got is not looked at.
  abbrev pub quic_dialled : Answer F C → Dialled C F T
  quic_dialled (got session) = dial_quic (got session) (net.open_stream session)
  quic_dialled (failed e) = dial_quic (failed e) (failed e)

  -- The registry after the `init` functions of mux/, which run in the order of their files.
  unfoldable pub dialers : Map (Dialer C F T)
  unfolding register
  dialers =
      register Protocol.yamux (λ ip port. dial_yamux (net.tls ip port))
        (register Protocol.quic (λ ip port. quic_dialled (net.quic ip port))
          (register Protocol.mplex (λ ip port. dial_mplex (net.tls ip port)) []))
