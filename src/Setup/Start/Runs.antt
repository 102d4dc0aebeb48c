-- ===== src/Setup/Start/Runs.antt =====
-- The theorems on a started node: one with the port 1111 from its configuration, and one whose port is
-- left to the system, which gives 4000 over UDP and 4001 over TCP.
use t.Prelude.{
  ℕ, ◌≡◌, ◌≢◌, refl, ◌⊎◌, false, none, some, String, [], ◌∷◌, Outcome, ok, if◌then◌else◌, ◌==◌,
  arith,
}
use t.Acme.Samples.{zone}
use t.Multiplexer.Alpn
use t.Gateway.{listener}
use t.Gateway.Apex.{ApexServer}
use t.Server.Samples.{parse_ip, host}
use t.Setup.Samples.{config, decode, keyring_of, made}
use t.Setup.{own_meta, new_router}
use t.Setup.Start.{Flags, Settings, System, Node, main, alpn_table, to_clients, to_gateway}
use t.Setup.Start.Listeners.{Routed, alpn_served}
use t.Setup.Start.Ports.{listener_port, main_reachable, main_unreachable}

alpn_served_example :
    ((Alpn.raw_name ≡ Alpn.multiplexer_name)
      × (listener alpn_table Alpn.raw_name ≡ some to_clients))
    ⊎ (((listener alpn_table Alpn.raw_name ≡ some to_gateway) × Routed Alpn.raw_name zone host 7)
        ⊎ ((listener alpn_table Alpn.raw_name ≡ none)
            × (Alpn.raw_name ≢ Alpn.unknown_name)
            × (Alpn.raw_name ≢ Alpn.multiplexer_name)
            × (Alpn.raw_name ≢ Alpn.http_name)
            × (Alpn.raw_name ≢ Alpn.raw_name)))
alpn_served_example = alpn_served Alpn.raw_name zone host 7

abbrev flags : Flags
flags = record { gateway_port = 443; peer_port = 1111; gossip_port = 12345; debug = false }

abbrev settings : Settings
settings = record {
  bundle = record { web_domain = zone; acme_domain = zone; root_zone = zone; protocol = 3 };
  peer_port = 1111;
  gossip_port = 12345;
  bind_addr = "0.0.0.0";
  advertise_addr = "10.0.0.1";
  respond_only = false;
  keyring = (5 ∷ []) ∷ [];
}

-- A port of 0 is answered by the first number, over TCP by the next.
abbrev os : System ℕ
os = record {
  peer_quic = λ bind p. ok (if p == 0 then 4000 else p);
  client_quic = λ bind p. ok p;
  peer_tls = λ bind p. ok (if p == 0 then 4001 else p);
  gateway = λ bind p. ok p;
}

abbrev ready : Outcome ℕ (Unit {0})
ready = ok tt

abbrev apex : ApexServer
apex = record { hostname = zone; host = zone; client_port = 443 }

abbrev node : Node ℕ
node = record {
  server = made;
  apex = apex;
  bound = record { peer_quic = 1111; client_quic = 443; peer_tls = 1111; gateway = 443 };
}

given-exact : (bind : String) (p b : ℕ) → p ≢ 0 → os.peer_quic bind p ≡ ok b → b ≡ p
given-exact bind p b h e = ground arith

given-exact_tcp : (bind : String) (p b : ℕ) → p ≢ 0 → os.peer_tls bind p ≡ ok b → b ≡ p
given-exact_tcp bind p b h e = ground arith

main_reachable_example :
    ("10.0.0.1" ≡ settings.advertise_addr)
    × (◌≡◌ {A = ℕ} 3 settings.bundle.protocol)
    × (◌≡◌ {A = ℕ} 1111 (listener_port 3 node.bound))
unfolding main
main_reachable_example =
    main_reachable (λ n. n ∷ []) decode keyring_of parse_ip 50 os flags settings ready ready ready
      node given-exact given-exact_tcp (omega arith) refl

abbrev random_node : Node ℕ
random_node = record {
  server = record {
    router = new_router 50;
    meta = own_meta 50 (record config { peer_port = 4001 });
    meta_bytes =
        10 ∷ 0 ∷ 0 ∷ 1 ∷ 0 ∷ 0 ∷ 0 ∷ 0 ∷ 0 ∷ 0 ∷ 0 ∷ 0 ∷ 0 ∷ 0 ∷ 15 ∷ 161 ∷ 0 ∷ 0 ∷ 0 ∷ 0 ∷ 0 ∷ 0
        ∷ 0 ∷ 50 ∷ 3 ∷ 0 ∷ [];
  };
  apex = apex;
  bound = record { peer_quic = 4000; client_quic = 443; peer_tls = 4001; gateway = 443 };
}

main_unreachable_example :
    (◌≡◌ {A = ℕ} 4001 random_node.bound.peer_tls) × (4001 ≢ listener_port 3 random_node.bound)
unfolding main
main_unreachable_example =
    main_unreachable (λ n. n ∷ []) decode keyring_of parse_ip 50 os flags
      (record settings { peer_port = 0 }) ready ready ready random_node refl refl (omega arith) refl
