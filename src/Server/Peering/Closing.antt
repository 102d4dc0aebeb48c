-- ===== src/Server/Peering/Closing.antt =====
-- server/gossip.go against mux/: when `connectPeer` closes what its dialer opened.
use t.Prelude.{
  ℕ, ◌≡◌, refl, ◌⊎◌, inl, inr, Bool, Option, none, some, Outcome, ok, err, panic, Map, lookup,
  insert, Bool-cases, Option-cases, ◌==◌, if◌then◌else◌, arith,
}
use t.Multiplexer.Config.{Config}
use t.Multiplexer.Protocol
use t.Multiplexer.Protocol.Registry.{RegistryError, unknown_protocol as unknown_dialer, find}
use t.Mux.Dialing.{
  Answer, got, failed, Dialled, Dialer, Net, dial_yamux, dial_mplex, dial_quic, quic_dialled,
  dialers,
}
use t.State.PeerMap.{
  PeerMap, PeerError, session_already_established, unknown_protocol, construction_failed,
  closed_after_negotiation, crashed, new_peer,
}
use t.State.PeerMap.Results.{new_peer_ok, new_peer_error}
use t.Server.Meta.{Meta}
use t.Server.Negotiation.Peers.{joined}
use t.Server.Peering.{
  Connected, ConnectError, getting_dialer, setting_up, initiator_config, settled, after_write,
  after_dial, connect_peer,
}

-- The connection or session that dialling a peer opens.
abbrev opened_of : {F C : Type 0} → Answer F C → Option C
opened_of (got c) = some c
opened_of (failed e) = none

abbrev pub opened : {C F T : Type 0} → Net C F T → Meta → Option C
opened net m =
    if m.protocol == Protocol.quic
    then opened_of (net.quic m.connect_ip m.connect_port)
    else if m.protocol == Protocol.yamux
    then opened_of (net.tls m.connect_ip m.connect_port)
    else if m.protocol == Protocol.mplex
    then opened_of (net.tls m.connect_ip m.connect_port)
    else none

-- An error leaves the sessions as they were, with all closed that was opened; without one nothing is
-- closed, and the peer, of whom there was no session, has one. `crashed` is a panic.
abbrev pub ClosesOrConnects :
    {C E F P : Type 0} → PeerMap P → ℕ → Option C → Connected C (ConnectError E F) P → Type 0
ClosesOrConnects {C} {E} {F} {P} s peer used r =
    (((e : ConnectError E F) × (r.error ≡ some e)) × (r.closed ≡ used) × (r.sessions ≡ s))
    ⊎ (((r.error ≡ none)
          × (r.closed ≡ none)
          × ((p : P) × (lookup peer s.peers ≡ none) × (r.sessions ≡ joined peer p s)))
        ⊎ (r.error ≡ some (setting_up crashed)))

module _ {C E F P : Type 0} (registry : Map (Config C → Outcome E P)) (closes : P → ℕ → Bool)
    (s : PeerMap P) (proto : ℕ) where
  failed-ClosesOrConnects :
      (closer : Option C) (conf : Config C) (t : PeerMap P) (e : PeerError E)
      → t ≡ s
      → ClosesOrConnects {E = E} {F = F} s conf.peer closer (settled closer (t, some e))
  failed-ClosesOrConnects closer conf t crashed kept = inr (inr refl)
  failed-ClosesOrConnects closer conf t session_already_established kept =
      inl ((_, refl), refl, kept)
  failed-ClosesOrConnects closer conf t unknown_protocol kept = inl ((_, refl), refl, kept)
  failed-ClosesOrConnects closer conf t (construction_failed e) kept = inl ((_, refl), refl, kept)
  failed-ClosesOrConnects closer conf t closed_after_negotiation kept = inl ((_, refl), refl, kept)

  settled-ClosesOrConnects :
      (closer : Option C) (conf : Config C) (r : PeerMap P × Option (PeerError E))
      → new_peer registry closes s proto conf ≡ r
      → ClosesOrConnects {E = E} {F = F} s conf.peer closer (settled closer r)
  settled-ClosesOrConnects closer conf (t, none) h =
      let (p, fresh, n, q) = new_peer_ok registry closes s t proto conf h in
      inr (inl (refl, refl, (p, fresh, q)))
  settled-ClosesOrConnects closer conf (t, some e) h =
      failed-ClosesOrConnects closer conf t e (new_peer_error registry closes s t proto conf e h)

module _ {C E F P T : Type 0} (registry : Map (Config C → Outcome E P)) (closes : P → ℕ → Bool)
    (table : Map (Dialer C F T)) (wait : ℕ) (s : PeerMap P) (m : Meta) where
  after_write-ClosesOrConnects :
      (d : Dialled C F T) (written : Outcome F (Unit {0}))
      → ClosesOrConnects {E = E} {F = F} s m.peer_id d.closer
          (after_write registry closes table wait s m d written)
  after_write-ClosesOrConnects d (ok u) =
      settled-ClosesOrConnects {F = F} registry closes s m.protocol d.closer
        (initiator_config wait d.connector m.peer_id) _ refl
  after_write-ClosesOrConnects d (err e) = inl ((_, refl), refl, refl)
  after_write-ClosesOrConnects d panic = inr (inr refl)

  -- After a dialling, what its closer closes is closed, or the peer is connected.
  after_dial-ClosesOrConnects :
      (written : Outcome F (Unit {0})) (d : Dialled C F T)
      → ClosesOrConnects {E = E} {F = F} s m.peer_id d.closer
          (after_dial registry closes table wait s m written d)
  after_dial-ClosesOrConnects written d = elim (Option-cases d.error) [
    | inl fine ↦ rw fine (after_write-ClosesOrConnects d written)
    | inr (e, failing) ↦ rw failing (inl ((_, refl), refl, refl))
  ]

module _ {C F T : Type 0} (net : Net C F T) where
  closer-tls :
      (answer : Answer F C) → (dial_yamux {C = C} {F = F} {T = T} answer).closer ≡ opened_of answer
  unfolding dial_yamux
  closer-tls (got c) = refl
  closer-tls (failed e) = refl

  closer-session :
      (session : C) (stream : Answer F T) → (dial_quic (got session) stream).closer ≡ some session
  unfolding dial_quic
  closer-session session (got t) = refl
  closer-session session (failed e) = refl

  closer-quic : (answer : Answer F C) → (quic_dialled net answer).closer ≡ opened_of answer
  unfolding dial_quic
  closer-quic (got session) = closer-session session (net.open_stream session)
  closer-quic (failed e) = refl

  -- The dialer of a protocol, if it has one, gives a closer for what it opens.
  find-opened :
      (m : Meta)
      → ((dial : Dialer C F T) × (find (dialers net) m.protocol ≡ ok dial)
          × ((dial m.connect_ip m.connect_port).closer ≡ opened net m))
        ⊎ ((e : RegistryError) × (find (dialers net) m.protocol ≡ err e) × (opened net m ≡ none))
  unfolding find dialers dial_mplex lookup insert
  find-opened m = elim (Bool-cases (m.protocol == Protocol.quic)) [
    | inl quic ↦ inl (
      λ ip port. quic_dialled net (net.quic ip port),
      ground (arith, quic),
      ground (arith, quic, closer-quic (net.quic m.connect_ip m.connect_port)),
    )
    | inr e ↦ elim (Bool-cases (m.protocol == Protocol.yamux)) [
      | inl yamux ↦ inl (
        λ ip port. dial_yamux (net.tls ip port),
        ground (arith, yamux),
        ground (arith, yamux, closer-tls (net.tls m.connect_ip m.connect_port)),
      )
      | inr e1 ↦ elim (Bool-cases (m.protocol == Protocol.mplex)) [
        | inl mplex ↦ inl (
          λ ip port. dial_mplex (net.tls ip port),
          ground (arith, mplex),
          ground (arith, mplex, closer-tls (net.tls m.connect_ip m.connect_port)),
        )
        | inr e2 ↦ inr (unknown_dialer, ground (arith, e, e1, e2), ground (arith, e, e1, e2))
      ]
    ]
  ]

module _ {C E F P T : Type 0} (registry : Map (Config C → Outcome E P)) (closes : P → ℕ → Bool)
    (net : Net C F T) (wait : ℕ) where
  dialled_with :
      (s : PeerMap P) (m : Meta) (written : Outcome F (Unit {0})) (dial : Dialer C F T)
      → find (dialers net) m.protocol ≡ ok dial
      → connect_peer registry closes (dialers net) wait s m written
        ≡ after_dial registry closes
            (dialers net)
            wait
            s
            m
            written
            (dial m.connect_ip m.connect_port)
  unfolding connect_peer
  dialled_with s m written dial known = rw (known, connect_peer) refl

  undialled :
      (s : PeerMap P) (m : Meta) (written : Outcome F (Unit {0})) (e : RegistryError)
      → find (dialers net) m.protocol ≡ err e
      → connect_peer registry closes (dialers net) wait s m written
        ≡ record { sessions = s; error = some getting_dialer; closed = none }
  unfolding connect_peer
  undialled s m written e unknown = rw (unknown, connect_peer) refl

  -- A dialling of a peer, with the dialers of the three kinds of session, whatever the network
  -- answers: unless a constructor or the write panics, it either ends with an error, with the
  -- sessions as they were and the connection that was opened, if one was, closed; or without one,
  -- with nothing closed, and the peer, of whom there was no session, has one, counted and
  -- announced.
  pub connect_peer_closes :
      (s : PeerMap P) (m : Meta) (written : Outcome F (Unit {0}))
      → ClosesOrConnects {E = E} {F = F} s m.peer_id
          (opened net m)
          (connect_peer registry closes (dialers net) wait s m written)
  connect_peer_closes s m written = elim (find-opened net m) [
    | inl (dial, known, e) ↦
        rw (dialled_with s m written dial known, ← e)
          (after_dial-ClosesOrConnects registry closes (dialers net) wait s m written
            (dial m.connect_ip m.connect_port))
    | inr (e, unknown, nothing) ↦
        rw (undialled s m written e unknown, nothing) (inl ((_, refl), refl, refl))
  ]
