-- ===== src/Mux/Quic.antt =====
-- mux/quic.go and conn.go: sessions over QUIC. The closing of a session is told by a channel of its
-- own, `timeoutCh`.
pub mod Closing
use t.Prelude.{
  ℕ, ◌+◌, Bool, true, false, Option, List, Outcome, ok, err, panic, if◌then◌else◌, some, none,
}
use t.Multiplexer.Channel.{Channel, new_channel, close_whole}
use t.Multiplexer.Config.{Config, ConfigError, validate}
use t.Multiplexer.Link.{Link}
use t.Multiplexer.Protocol
use t.Mux
use t.Mux.{
  LinkConnection, StreamError, opening_stream, direct_handshake, messaging_handshake, joined,
  accept_link, Round, cancelled, accept_failed, accepted,
}

-- `quicConn`
pub record QuicConn (S T : Type 0) : Type 0 where
  pub stream : T
  pub session : Option S

-- `WrapQUIC`
unfoldable pub wrap_quic : {S T : Type 0} → Option S → T → QuicConn S T
wrap_quic session stream = record { stream = stream; session = session }

-- `session_closes` and `timeout_closes` count the calls of `CloseWithError` and the closes of
-- `timeoutCh`, of which a second would panic; `timeout_closed` is the flag `timeoutChClosed`.
pub record Quic (S T : Type 0) : Type 0 where
  pub config : Config S
  pub channel : Channel (LinkConnection (QuicConn S T))
  pub timeout_closed : Bool
  pub session_closes : ℕ
  pub timeout_closes : ℕ

module _ {S T : Type 0} where
  abbrev validated : Config S → Outcome ConfigError (Unit {0}) → Outcome ConfigError (Quic S T)
  validated config (err e) = err e
  validated config panic = panic
  validated config (ok _) = ok (record {
    config = config;
    channel = new_channel;
    timeout_closed = false;
    session_closes = 0;
    timeout_closes = 0;
  })

  -- `NewQuicPeer`
  unfoldable pub new_quic_peer : Config S → Outcome ConfigError (Quic S T)
  unfolding validate new_channel
  new_quic_peer config = validated config (validate config)

  pub protocol : Quic S T → ℕ
  protocol p = Protocol.quic

  unfoldable pub close_timeout : Quic S T → Quic S T
  close_timeout p =
      if p.timeout_closed
      then p
      else record p { timeout_closed = true; timeout_closes = p.timeout_closes + 1 }

  unfoldable pub bye : Quic S T → Quic S T
  unfolding close_whole close_timeout
  bye p =
      let (channel, won) = close_whole p.channel in
      if won
      then close_timeout (record p { channel = channel; session_closes = p.session_closes + 1 })
      else p

module _ {F S T : Type 0} where
  unfoldable pub stream_handshake :
      Quic S T → T → Outcome F (List ℕ) → Option (LinkConnection (QuicConn S T))
  unfolding wrap_quic accept_link
  stream_handshake p s got = accept_link (wrap_quic p.config.conn s) got

  unfoldable pub start :
      Quic S T → List (Round F T) → Quic S T × List (LinkConnection (QuicConn S T))
  unfolding bye stream_handshake Mux.start
  start = Mux.start bye stream_handshake

  -- `Null`: the first stream that is asked for ends the session; a failure only tells of its end.
  unfoldable pub null : Quic S T → Round F T → Quic S T
  unfolding bye close_timeout
  null p cancelled = p
  null p (accept_failed e) = close_timeout p
  null p (accepted s got) = bye p

  abbrev wrapped : Quic S T → Outcome (StreamError F) T → Outcome (StreamError F) (QuicConn S T)
  wrapped p (ok s) = ok (wrap_quic p.config.conn s)
  wrapped p (err e) = err e
  wrapped p panic = panic

  -- `opened` is what opening a stream comes to.
  module _ (write : T → List ℕ → T × Outcome F ℕ) where
    unfoldable pub direct : Quic S T → Outcome F T → Link → Outcome (StreamError F) (QuicConn S T)
    unfolding direct_handshake wrap_quic
    direct p (ok s) link = wrapped p (direct_handshake write link s)
    direct p (err e) link = err (opening_stream e)
    direct p panic link = panic

    unfoldable pub bidirectional :
        {V : Type 0}
        → Quic S T
        → Outcome F T
        → V
        → Link
        → Outcome (StreamError F) (QuicConn S T × V)
    unfolding direct
    bidirectional p opened conn link = joined conn (direct p opened link)

    unfoldable pub messaging : Quic S T → Outcome F T → Outcome (StreamError F) (QuicConn S T)
    unfolding messaging_handshake wrap_quic
    messaging p (ok s) = wrapped p (messaging_handshake write s)
    messaging p (err e) = err (opening_stream e)
    messaging p panic = panic
