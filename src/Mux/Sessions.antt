-- ===== src/Mux/Sessions.antt =====
-- multiplexer/peer.go: a session of any of the three kinds, and its `Bidirectional`.
use t.Prelude.{ℕ, ◌≡◌, List, Outcome, ok, err, panic, arith}
use t.Multiplexer.Link.{Link, link_size, marshal}
use t.Mux.{StreamError, direct_handshake}
use t.Mux.Yamux
use t.Mux.Yamux.{Yamux}
use t.Mux.Mplex
use t.Mux.Mplex.{Mplex}
use t.Mux.Quic
use t.Mux.Quic.{Quic}

-- `Peer`
pub data Peer (S C T : Type 0) : Type 0 where
  over_yamux : Yamux S C T → Peer S C T
  over_mplex : Mplex S C T → Peer S C T
  over_quic : Quic S T → Peer S C T

-- Whether there was an error.
abbrev finished : {E A : Type 0} → Outcome E A → Outcome E (Unit {0})
finished (ok a) = ok tt
finished (err e) = err e
finished panic = panic

module _ {F S C T V : Type 0} (write : T → List ℕ → T × Outcome F ℕ) where
  -- `Bidirectional`, without the channel on which the errors of the pipe are told; `opened` is what
  -- opening a stream comes to.
  unfoldable pub bidirectional :
      Peer S C T → Outcome F T → V → Link → Outcome (StreamError F) (Unit {0})
  unfolding Yamux.bidirectional Mplex.bidirectional Quic.bidirectional
  bidirectional (over_yamux p) opened conn link =
      finished (Yamux.bidirectional write p opened conn link)
  bidirectional (over_mplex p) opened conn link =
      finished (Mplex.bidirectional write p opened conn link)
  bidirectional (over_quic p) opened conn link =
      finished (Quic.bidirectional write p opened conn link)

  -- Over a new stream that takes a link whole, the connections are joined.
  pub bidirectional-ok :
      (p : Peer S C T) (s s' : T) (conn : V) (link : Link)
      → write s (marshal link) ≡ (s', ok link_size)
      → bidirectional p (ok s) conn link ≡ ok tt
  unfolding bidirectional Yamux.bidirectional Mplex.bidirectional Quic.bidirectional Yamux.direct
      Mplex.direct Quic.direct direct_handshake
  bidirectional-ok (over_yamux p) s s' conn link takes = ground (arith, takes)
  bidirectional-ok (over_mplex p) s s' conn link takes = ground (arith, takes)
  bidirectional-ok (over_quic p) s s' conn link takes = ground (arith, takes)
