-- ===== src/Server/Peering/Runs.antt =====
-- The theorem on dialling where node 50 dials node 20 over QUIC.
use t.Prelude.{ℕ, ◌≡◌, refl, false, none, [], ◌∷◌, ok, insert, arith, lookup}
use t.Multiplexer.Link.{marshal}
use t.State.PeerMap.{negotiate}
use t.Server.Samples.{registry, sessions, low}
use t.Server.Negotiation.{peer_negotiation}
use t.Server.Negotiation.Peers.{joined}
use t.Server.Peering.{peer_link, connect_peer}
use t.Mux.Dialing.{got, failed, Net, dial_quic, quic_dialled, dialers}
use t.Multiplexer.Protocol.Registry.{find}
use t.Server.Peering.Closing.{ClosesOrConnects, opened, connect_peer_closes}
use t.Server.Peering.Meeting.{peers_meet}

-- Sessions and streams are numbers; the network answers every address with session 5 and stream 8.
abbrev net : Net ℕ (Unit {0}) ℕ
net = record { tls = λ ip port. got 5; quic = λ ip port. got 5; open_stream = λ s. got 8 }

peers_meet_example :
    (connect_peer registry (λ p w. false) (dialers net) 1 (sessions []) low (ok tt)
      ≡ record { sessions = joined 20 120 (sessions []); error = none; closed = none })
    × (peer_negotiation {F = Unit {0}} registry
          (λ p w. false)
          20
          1
          (sessions [])
          6
          (3 ∷ [])
          (ok (marshal (peer_link 50 low)))
        ≡ (joined 50 150 (sessions []), none))
unfolding lookup negotiate find dialers dial_quic insert
peers_meet_example =
    peers_meet registry (λ p w. false) (dialers net) 1 50 low (sessions []) (sessions []) 5 6
      (λ ip port. quic_dialled net (net.quic ip port)) (3 ∷ []) 120 150 (omega arith) (omega arith)
      (omega arith) (omega arith) (omega arith) (omega arith) refl refl refl refl refl refl refl
      refl

-- A stream of the session cannot be opened.
abbrev broken : Net ℕ (Unit {0}) ℕ
broken = record net { open_stream = λ s. failed tt }

connect_peer_closes_example :
    ClosesOrConnects {E = Unit {0}} {F = Unit {0}}
      (sessions [])
      20
      (opened broken low)
      (connect_peer registry (λ p w. false) (dialers broken) 1 (sessions []) low (ok tt))
connect_peer_closes_example =
    connect_peer_closes registry (λ p w. false) broken 1 (sessions []) low (ok tt)
