-- ===== src/Server/Handshakes/Closing.antt =====
-- server/peers.go and clients.go: when the handlers close a new connection.
use t.Prelude.{
  ℕ, ◌≡◌, refl, ap, ◌⊎◌, inl, inr, Bool, true, false, Option, none, some, List, Outcome, ok, err,
  panic, Map, lookup,
}
use t.Multiplexer.Config.{Config}
use t.Multiplexer.Protocol.{tls_protos, quic_protos}
use t.State.PeerMap.{
  PeerMap, crashed, session_already_established, unknown_protocol, construction_failed,
  closed_after_negotiation,
}
use t.Shared.{peer_hash}
use t.Server.Negotiation.{NegotiationError, setting_up, peer_negotiation, client_negotiation}
use t.Server.Negotiation.Peers.{joined, peer_negotiation_ok, peer_negotiation_error}
use t.Server.Negotiation.Clients.{client_negotiation_ok, client_negotiation_error}
use t.Server.Negotiation.Panics.{
  ConstructorPanics, peer_negotiation_panic, client_negotiation_panic,
}
use t.Server.Handshakes.{
  Handled, handled, Replies, peer_tls_handshake, peer_quic_handshake, client_tls_handshake,
  client_quic_handshake,
}

-- A connection that is closed leaves the sessions as they were; one that is left open is now a
-- session under an identifier that had none, counted and announced; and a panic, which has its
-- cause in `Cause`, leaves the sessions as they were and the connection open.
abbrev pub ClosesOrRegisters : {P : Type 0} → Type 0 → PeerMap P → Handled P → Type 0
ClosesOrRegisters {P} Cause s h =
    ((h.closed ≡ true) × (h.panicked ≡ false) × (h.sessions ≡ s))
    ⊎ (((h.closed ≡ false)
          × (h.panicked ≡ false)
          × ((k : ℕ) × (p : P) × (lookup k s.peers ≡ none) × (h.sessions ≡ joined k p s)))
        ⊎ ((h.panicked ≡ true) × Cause × (h.closed ≡ false) × (h.sessions ≡ s)))

module _ {E F P : Type 0} {Cause : Type 0} (s : PeerMap P) where
  handled_error :
      (t : PeerMap P) (e : NegotiationError E F)
      → (e ≡ setting_up crashed → Cause)
      → t ≡ s
      → ClosesOrRegisters Cause s (handled (t, some e))
  handled_error t (setting_up crashed) cause same = inr (inr (refl, cause refl, refl, same))
  handled_error t (setting_up session_already_established) cause same = inl (refl, refl, same)
  handled_error t (setting_up unknown_protocol) cause same = inl (refl, refl, same)
  handled_error t (setting_up (construction_failed e)) cause same = inl (refl, refl, same)
  handled_error t (setting_up closed_after_negotiation) cause same = inl (refl, refl, same)
  handled_error t e cause same = inl (refl, refl, same)

  handled-ClosesOrRegisters :
      (r : PeerMap P × Option (NegotiationError E F))
      → ((t : PeerMap P)
          → r ≡ (t, none)
          → (k : ℕ) × (p : P) × (lookup k s.peers ≡ none) × (t ≡ joined k p s))
      → ((t : PeerMap P) (e : NegotiationError E F) → r ≡ (t, some e) → t ≡ s)
      → ((t : PeerMap P) → r ≡ (t, some (setting_up crashed)) → Cause)
      → ClosesOrRegisters Cause s (handled r)
  handled-ClosesOrRegisters (t, none) registers keeps causes =
      inr (inl (refl, refl, registers t refl))
  handled-ClosesOrRegisters (t, some e) registers keeps causes =
      handled_error t e (λ same. causes t (ap (λ x. (t, some x)) same)) (keeps t e refl)

-- One more cause.
widen :
    {P Cause Cause' : Type 0} {s : PeerMap P} {h : Handled P}
    → ClosesOrRegisters Cause s h
    → ClosesOrRegisters (Cause' ⊎ Cause) s h
widen (inl closed) = inl closed
widen (inr (inl kept)) = inr (inl kept)
widen (inr (inr (panicked, cause, left_open, same))) =
    inr (inr (panicked, inr cause, left_open, same))

module _ {C E F P : Type 0} (registry : Map (Config C → Outcome E P)) (closes : P → ℕ → Bool)
    (self wait : ℕ) (s : PeerMap P) (conn : C) where
  -- What makes a handler for peers panic, and one for clients.
  abbrev pub PeerCause : Outcome F (List ℕ) → Type 0
  PeerCause got = (got ≡ panic) ⊎ ConstructorPanics registry

  abbrev pub ClientCause : Outcome F (List ℕ) → Replies F → Type 0
  ClientCause got r =
      ((got ≡ panic) ⊎ ((r.written ≡ panic) ⊎ (r.encoded ≡ panic))) ⊎ ConstructorPanics registry

  negotiated_peer :
      (acceptable : List ℕ) (got : Outcome F (List ℕ))
      → ClosesOrRegisters
          (PeerCause got)
          s
          (handled (peer_negotiation registry closes self wait s conn acceptable got))
  negotiated_peer acceptable got =
      handled-ClosesOrRegisters s (peer_negotiation registry closes self wait s conn acceptable got)
        (λ t h.
          let (link, p, offer, valid, fresh, n, e) =
            peer_negotiation_ok registry closes self wait s t conn acceptable got h in
          (link.source, p, fresh, e))
        (λ t e h. peer_negotiation_error registry closes self wait s t conn acceptable got e h)
        (λ t h. peer_negotiation_panic registry closes self wait s t conn acceptable got h)

  negotiated_client :
      (acceptable : List ℕ) (got : Outcome F (List ℕ)) (r : Replies F)
      → ClosesOrRegisters (ClientCause got r) s (
          handled (
            client_negotiation registry closes self wait s conn r.name acceptable got r.written
              r.encoded))
  negotiated_client acceptable got r =
      handled-ClosesOrRegisters s
        (client_negotiation registry closes self wait s conn r.name acceptable got r.written
          r.encoded)
        (λ t h.
          let (link, p, offer, src, dst, w, c, fresh, n, e) =
            client_negotiation_ok registry closes self wait s t conn r.name acceptable got r.written
              r.encoded h in
          (peer_hash r.name, p, fresh, e))
        (λ t e h.
          client_negotiation_error registry closes self wait s t conn r.name acceptable got
            r.written r.encoded e h)
        (λ t h.
          client_negotiation_panic registry closes self wait s t conn r.name acceptable got
            r.written r.encoded h)

  -- Each of the four handlers of a new connection, of a peer or a client, over TLS or QUIC, does
  -- one of three things. It closes the connection and leaves the sessions as they were; or it
  -- leaves it open, and then it is a session under an identifier that had none, counted and
  -- announced; or it panics, because a constructor of the registry or an operation on the
  -- connection does, and then it leaves the connection open and the sessions as they were.
  pub handshakes_close :
      (opened : Outcome F (Unit {0})) (got : Outcome F (List ℕ)) (r : Replies F)
      → ClosesOrRegisters
          (PeerCause got)
          s
          (peer_tls_handshake registry closes self wait s conn got)
        × ClosesOrRegisters
            ((opened ≡ panic) ⊎ PeerCause got)
            s
            (peer_quic_handshake registry closes self wait s conn opened got)
        × ClosesOrRegisters
            (ClientCause got r)
            s
            (client_tls_handshake registry closes self wait s conn r got)
        × ClosesOrRegisters
            ((opened ≡ panic) ⊎ ClientCause got r)
            s
            (client_quic_handshake registry closes self wait s conn r opened got)
  unfolding peer_tls_handshake peer_quic_handshake client_tls_handshake client_quic_handshake
  handshakes_close (ok u) got r = (
    negotiated_peer tls_protos got,
    widen (negotiated_peer quic_protos got),
    negotiated_client tls_protos got r,
    widen (negotiated_client quic_protos got r),
  )
  handshakes_close (err e) got r = (
    negotiated_peer tls_protos got,
    inl (refl, refl, refl),
    negotiated_client tls_protos got r,
    inl (refl, refl, refl),
  )
  handshakes_close panic got r = (
    negotiated_peer tls_protos got,
    inr (inr (refl, inl refl, refl, refl)),
    negotiated_client tls_protos got r,
    inr (inr (refl, inl refl, refl, refl)),
  )
