-- ===== src/Mux/Mplex.antt =====
-- mux/mplex.go: sessions over mplex. A stream of the library has no addresses, so it is wrapped
-- with the connection below it.
use t.Prelude.{ℕ, Bool, true, false, Option, List, Outcome, ok, err, panic, if◌then◌else◌}
use t.Multiplexer.Channel.{Channel, new_channel, close_whole}
use t.Multiplexer.Config.{Config, ConfigError, validate}
use t.Multiplexer.Link.{Link}
use t.Multiplexer.Protocol
use t.Mux
use t.Mux.{
  LinkConnection, StreamError, opening_stream, direct_handshake, messaging_handshake, joined,
  accept_link, Round, cancelled, accept_failed, accepted,
}

-- `mplexConn`
pub record MplexConn (C T : Type 0) : Type 0 where
  pub stream : T
  pub parent_conn : Option C

pub record Mplex (S C T : Type 0) : Type 0 where
  pub session : S
  pub config : Config C
  pub channel : Channel (LinkConnection (MplexConn C T))
  pub session_closed : Bool
  pub conn_closed : Bool

module _ {S C T : Type 0} where
  abbrev over : (Bool → Option C → S) → Config C → Mplex S C T
  over library config = record {
    session = library config.initiator config.conn;
    config = config;
    channel = new_channel;
    session_closed = false;
    conn_closed = false;
  }

  abbrev validated :
      (Bool → Option C → S)
      → Config C
      → Outcome ConfigError (Unit {0})
      → Outcome ConfigError (Mplex S C T)
  validated library config (ok _) = ok (over library config)
  validated library config (err e) = err e
  validated library config panic = panic

  -- `NewMplexPeer`; `library` is `multiplex.NewMultiplex`.
  unfoldable pub new_mplex_peer :
      (Bool → Option C → S) → Config C → Outcome ConfigError (Mplex S C T)
  unfolding validate
  new_mplex_peer library config = validated library config (validate config)

  pub protocol : Mplex S C T → ℕ
  protocol p = Protocol.mplex

  unfoldable pub wrap : Mplex S C T → T → MplexConn C T
  wrap p s = record { stream = s; parent_conn = p.config.conn }

  unfoldable pub bye : Mplex S C T → Mplex S C T
  unfolding close_whole
  bye p =
      let (channel, won) = close_whole p.channel in
      if won then record p { channel = channel; session_closed = true; conn_closed = true } else p

module _ {F S C T : Type 0} where
  unfoldable pub stream_handshake :
      Mplex S C T → T → Outcome F (List ℕ) → Option (LinkConnection (MplexConn C T))
  unfolding wrap accept_link
  stream_handshake p s got = accept_link (wrap p s) got

  unfoldable pub start :
      Mplex S C T → List (Round F T) → Mplex S C T × List (LinkConnection (MplexConn C T))
  unfolding bye stream_handshake Mux.start
  start = Mux.start bye stream_handshake

  -- `Null`: the first stream that is asked for ends the session.
  unfoldable pub null : Mplex S C T → Round F T → Mplex S C T
  unfolding bye
  null p cancelled = p
  null p (accept_failed e) = p
  null p (accepted s got) = bye p

  abbrev wrapped : Mplex S C T → Outcome (StreamError F) T → Outcome (StreamError F) (MplexConn C T)
  wrapped p (ok s) = ok (wrap p s)
  wrapped p (err e) = err e
  wrapped p panic = panic

  -- `opened` is what opening a stream comes to.
  module _ (write : T → List ℕ → T × Outcome F ℕ) where
    unfoldable pub direct :
        Mplex S C T → Outcome F T → Link → Outcome (StreamError F) (MplexConn C T)
    unfolding direct_handshake wrap
    direct p (ok s) link = wrapped p (direct_handshake write link s)
    direct p (err e) link = err (opening_stream e)
    direct p panic link = panic

    unfoldable pub bidirectional :
        {V : Type 0}
        → Mplex S C T
        → Outcome F T
        → V
        → Link
        → Outcome (StreamError F) (MplexConn C T × V)
    unfolding direct
    bidirectional p opened conn link = joined conn (direct p opened link)

    unfoldable pub messaging : Mplex S C T → Outcome F T → Outcome (StreamError F) (MplexConn C T)
    unfolding messaging_handshake wrap
    messaging p (ok s) = wrapped p (messaging_handshake write s)
    messaging p (err e) = err (opening_stream e)
    messaging p panic = panic
