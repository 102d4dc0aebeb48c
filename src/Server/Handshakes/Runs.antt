-- ===== src/Server/Handshakes/Runs.antt =====
-- The theorem on the handlers of new connections where a peer is let in over QUIC.
use t.Prelude.{◌≡◌, ◌⊎◌, false, [], Outcome, ok, panic}
use t.Server.Samples.{registry, sessions, offered, host}
use t.Server.Handshakes.{
  Replies, peer_tls_handshake, peer_quic_handshake, client_tls_handshake, client_quic_handshake,
}
use t.Server.Handshakes.Closing.{ClosesOrRegisters, PeerCause, ClientCause, handshakes_close}

abbrev replies : Replies (Unit {0})
replies = record { name = host; written = ok 18; encoded = ok tt }

handshakes_close_example :
    let s = sessions [] in
    let peer = PeerCause registry (λ p w. false) 7 1 s 5 offered in
    let client = ClientCause registry (λ p w. false) 7 1 s 5 offered replies in
    ClosesOrRegisters peer s (peer_tls_handshake registry (λ p w. false) 7 1 s 5 offered)
    × ClosesOrRegisters
        ((◌≡◌ {A = Outcome (Unit {0}) (Unit {0})} (ok tt) panic) ⊎ peer)
        s
        (peer_quic_handshake registry (λ p w. false) 7 1 s 5 (ok tt) offered)
    × ClosesOrRegisters client s
        (client_tls_handshake registry (λ p w. false) 7 1 s 5 replies offered)
    × ClosesOrRegisters
        ((◌≡◌ {A = Outcome (Unit {0}) (Unit {0})} (ok tt) panic) ⊎ client)
        s
        (client_quic_handshake registry (λ p w. false) 7 1 s 5 replies (ok tt) offered)
handshakes_close_example =
    handshakes_close registry (λ p w. false) 7 1 (sessions []) 5 (ok tt) offered replies
