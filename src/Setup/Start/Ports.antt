-- ===== src/Setup/Start/Ports.antt =====
-- cmd/server/main.go against server/gossip.go: the port that a started node tells its peers to dial, and
-- those that it listens at.
use t.Prelude.{
  ℕ, ◌≡◌, ◌≢◌, refl, ap, inl, inr, Outcome-cases, Option, String, List, Outcome, ok, err, panic,
  ◌==◌, if◌then◌else◌, arith,
}
use t.Acme.{Text}
use t.Gateway.Apex.{new_apex}
use t.Multiplexer.Protocol
use t.Setup.{Created, own_meta, new_server}
use t.Setup.Creation.{new_server_made}
use t.Setup.Start.{
  Flags, Settings, Bound, System, Node, StartError, fatal, override, listen_all, server_config,
  main,
}

fatal-eq-ok :
    {A E F W : Type 0} (as_error : W → StartError E F) (o : Outcome W A) {a : A}
    → fatal as_error o ≡ ok a
    → o ≡ ok a
fatal-eq-ok as_error (ok a) h = ground (arith, h)
fatal-eq-ok as_error (err e) h = absurd (ground (arith, h))
fatal-eq-ok as_error panic h = absurd (ground (arith, h))

-- Each of the four listeners has the port that the system gave it.
listen_all_ok :
    {E F : Type 0} (os : System F) (bind : String) (peer gateway : ℕ) (b : Bound)
    → listen_all {E = E} os bind peer gateway ≡ ok b
    → (os.peer_quic bind peer ≡ ok b.peer_quic)
      × (os.peer_tls bind peer ≡ ok b.peer_tls)
      × (os.client_quic bind gateway ≡ ok b.client_quic)
      × (os.gateway bind gateway ≡ ok b.gateway)
unfolding listen_all
listen_all_ok os bind peer gateway b h =
    let qp = os.peer_quic bind peer in
    let qc = os.client_quic bind gateway in
    let p = os.peer_tls bind peer in
    let g = os.gateway bind gateway in
    elim (Outcome-cases qp) [
      | inl (_, e) ↦ elim (Outcome-cases qc) [
        | inl (_, e1) ↦ elim (Outcome-cases p) [
          | inl (_, e2) ↦ ground (arith, h, e, e1, e2, Outcome-cases g)
          | inr e2 ↦ absurd (ground (arith, h, e, e1, e2))
        ]
        | inr e1 ↦ absurd (ground (arith, h, e, e1))
      ]
      | inr e ↦ absurd (ground (arith, h, e))
    ]

module _ {E F P : Type 0} (decimal : ℕ → Text) (decode : Text → Outcome E Text)
    (new_keyring : List Text → Outcome E (Unit {0})) (parse_ip : String → Option (List ℕ))
    (self : ℕ) (os : System F) (f : Flags) (loaded : Settings)
    (prepared first second : Outcome F (Unit {0})) where
  -- A node that starts has listened, made its server, and made its main page.
  pub main_made :
      (node : Node P)
      → main decimal decode new_keyring parse_ip self os f loaded prepared first second ≡ ok node
      → let s = override f loaded in
        (listen_all {E = E} os s.bind_addr s.peer_port f.gateway_port ≡ ok node.bound)
        × (new_server decode new_keyring parse_ip self
              (server_config decimal f.gateway_port s node.bound)
            ≡ ok node.server)
        × (new_apex decimal s.bundle.web_domain f.gateway_port first second ≡ ok node.apex)
  unfolding main
  main_made node h =
      let s = override f loaded in
      elim (Outcome-cases prepared) [
        | inl (u, e) ↦
            elim (Outcome-cases (listen_all {E = E} os s.bind_addr s.peer_port f.gateway_port)) [
              | inl (b, e1) ↦
                  let made : Outcome _ (Created P) =
                    new_server decode new_keyring parse_ip self
                      (server_config decimal f.gateway_port s b) in
                  elim (Outcome-cases made) [
                    | inl (m, e2) ↦
                        elim (Outcome-cases
                          (new_apex decimal s.bundle.web_domain f.gateway_port first second)) [
                            | inl (a, e3) ↦ ground (arith, h, e, e1, e2, e3)
                            | inr e3 ↦ absurd (ground (arith, h, e, e1, e2, e3))
                          ]
                    | inr e2 ↦ absurd (ground (arith, h, e, e1, e2))
                  ]
              | inr e1 ↦ absurd (ground (arith, h, e, e1))
            ]
        | inr e ↦ absurd (ground (arith, h, e))
      ]

-- The port at which the listener of a protocol is: dialQuic goes by UDP, the other dialers by TCP.
abbrev pub listener_port : ℕ → Bound → ℕ
listener_port protocol b = if protocol == Protocol.quic then b.peer_quic else b.peer_tls

module _ {E F P : Type 0} (decimal : ℕ → Text) (decode : Text → Outcome E Text)
    (new_keyring : List Text → Outcome E (Unit {0})) (parse_ip : String → Option (List ℕ))
    (self : ℕ) (os : System F) (f : Flags) (loaded : Settings)
    (prepared first second : Outcome F (Unit {0})) where
  -- What a started node says of itself.
  main-meta :
      (node : Node P)
      → main decimal decode new_keyring parse_ip self os f loaded prepared first second ≡ ok node
      → node.server.meta
        ≡ own_meta self (server_config decimal f.gateway_port (override f loaded) node.bound)
  main-meta node h =
      let (listened, made, page) =
        main_made decimal decode new_keyring parse_ip self os f loaded prepared first second node
          h in
      let (b, e, same) =
        new_server_made decode new_keyring parse_ip self
          (server_config decimal f.gateway_port (override f loaded) node.bound) node.server made in
      ap (λ (m : Created P). m.meta) same

  -- A listener that is asked for a port other than 0 has that port. Then a node that starts with a
  -- port for its peers, from its flags or its configuration, tells them the address of the
  -- configuration, the protocol of the configuration, and the port at which its listener for that
  -- protocol is.
  pub main_reachable :
      (node : Node P)
      → ((bind : String) (p b : ℕ) → p ≢ 0 → os.peer_quic bind p ≡ ok b → b ≡ p)
      → ((bind : String) (p b : ℕ) → p ≢ 0 → os.peer_tls bind p ≡ ok b → b ≡ p)
      → (override f loaded).peer_port ≢ 0
      → main decimal decode new_keyring parse_ip self os f loaded prepared first second ≡ ok node
      → let m = node.server.meta in
        (m.connect_ip ≡ loaded.advertise_addr)
        × (m.protocol ≡ loaded.bundle.protocol)
        × (m.connect_port ≡ listener_port m.protocol node.bound)
  unfolding override server_config
  main_reachable node udp tcp fixed h =
      let s = override f loaded in
      let (listened, made, page) =
        main_made decimal decode new_keyring parse_ip self os f loaded prepared first second node
          h in
      let (qp, p, qc, g) =
        listen_all_ok {E = E} os s.bind_addr s.peer_port f.gateway_port node.bound listened in
      let by_udp = udp s.bind_addr s.peer_port node.bound.peer_quic fixed qp in
      let by_tcp = tcp s.bind_addr s.peer_port node.bound.peer_tls fixed p in
      rw (main-meta node h) (refl, refl, ground (arith, by_udp, by_tcp))

  -- A node that starts with the port 0 for its peers and the protocol QUIC, and whose listeners
  -- over UDP and TCP are given different ports, tells its peers the port of the listener over TCP,
  -- which is not the one at which its listener for that protocol is.
  pub main_unreachable :
      (node : Node P)
      → (override f loaded).peer_port ≡ 0
      → loaded.bundle.protocol ≡ Protocol.quic
      → node.bound.peer_quic ≢ node.bound.peer_tls
      → main decimal decode new_keyring parse_ip self os f loaded prepared first second ≡ ok node
      → let m = node.server.meta in
        (m.connect_port ≡ node.bound.peer_tls)
        × (m.connect_port ≢ listener_port m.protocol node.bound)
  unfolding override server_config
  main_unreachable node random quic differ h =
      rw (main-meta node h)
        (ground (arith, random), λ same. differ (ground (arith, random, quic, same)))
