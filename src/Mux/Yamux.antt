-- ===== src/Mux/Yamux.antt =====
-- mux/yamux.go: sessions over yamux.
use t.Prelude.{
  ℕ, Bool, true, false, Option, List, Outcome, ok, err, panic, if◌then◌else◌, some, none,
}
use t.Multiplexer.Channel.{Channel, new_channel, close_whole}
use t.Multiplexer.Config.{Config, ConfigError, validate}
use t.Multiplexer.Link.{Link}
use t.Multiplexer.Protocol
use t.Mux
use t.Mux.{
  LinkConnection, StreamError, opening_stream, direct_handshake, messaging_handshake, joined,
  accept_link, Round, cancelled, accept_failed, accepted,
}

pub data PeerError (E : Type 0) : Type 0 where
  invalid_config : ConfigError → PeerError E
  starting_peer : E → PeerError E

-- `S` is the type of the library's sessions, `C` that of the connections below them, `T` that of
-- the streams. The two flags say whether `Close` was called on each.
pub record Yamux (S C T : Type 0) : Type 0 where
  pub session : S
  pub config : Config C
  pub channel : Channel (LinkConnection T)
  pub session_closed : Bool
  pub conn_closed : Bool

module _ {E S C T : Type 0} where
  abbrev set_up : Config C → Outcome E S → Outcome (PeerError E) (Yamux S C T)
  set_up config (err e) = err (starting_peer e)
  set_up config panic = panic
  set_up config (ok session) = ok (record {
    session = session;
    config = config;
    channel = new_channel;
    session_closed = false;
    conn_closed = false;
  })

  abbrev over : (Bool → C → Outcome E S) → Config C → Option C → Outcome (PeerError E) (Yamux S C T)
  over library config none = panic
  over library config (some conn) = set_up config (library config.initiator conn)

  abbrev validated :
      (Bool → C → Outcome E S)
      → Config C
      → Outcome ConfigError (Unit {0})
      → Outcome (PeerError E) (Yamux S C T)
  validated library config (ok _) = over library config config.conn
  validated library config (err e) = err (invalid_config e)
  validated library config panic = panic

  -- `NewYamuxPeer`; `library true` is `yamux.Client` and `library false` is `yamux.Server`.
  unfoldable pub new_yamux_peer :
      (Bool → C → Outcome E S) → Config C → Outcome (PeerError E) (Yamux S C T)
  unfolding validate
  new_yamux_peer library config = validated library config (validate config)

module _ {S C T : Type 0} where
  pub protocol : Yamux S C T → ℕ
  protocol p = Protocol.yamux

  unfoldable pub bye : Yamux S C T → Yamux S C T
  unfolding close_whole
  bye p =
      let (channel, won) = close_whole p.channel in
      if won then record p { channel = channel; session_closed = true; conn_closed = true } else p

module _ {F S C T : Type 0} where
  unfoldable pub stream_handshake : Yamux S C T → T → Outcome F (List ℕ) → Option (LinkConnection T)
  unfolding accept_link
  stream_handshake p s got = accept_link s got

  unfoldable pub start : Yamux S C T → List (Round F T) → Yamux S C T × List (LinkConnection T)
  unfolding bye stream_handshake Mux.start
  start = Mux.start bye stream_handshake

  -- `Null`: the first stream that is asked for ends the session.
  unfoldable pub null : Yamux S C T → Round F T → Yamux S C T
  unfolding bye
  null p cancelled = p
  null p (accept_failed e) = p
  null p (accepted s got) = bye p

  -- `opened` is what opening a stream comes to.
  module _ (write : T → List ℕ → T × Outcome F ℕ) where
    unfoldable pub direct : Yamux S C T → Outcome F T → Link → Outcome (StreamError F) T
    unfolding direct_handshake
    direct p (ok s) link = direct_handshake write link s
    direct p (err e) link = err (opening_stream e)
    direct p panic link = panic

    unfoldable pub bidirectional :
        {V : Type 0} → Yamux S C T → Outcome F T → V → Link → Outcome (StreamError F) (T × V)
    unfolding direct
    bidirectional p opened conn link = joined conn (direct p opened link)

    unfoldable pub messaging : Yamux S C T → Outcome F T → Outcome (StreamError F) T
    unfolding messaging_handshake
    messaging p (ok s) = messaging_handshake write s
    messaging p (err e) = err (opening_stream e)
    messaging p panic = panic
