-- ===== src/Client/Runs.antt =====
-- The theorems on the client at a proposal for QUIC, and at a stream of a visitor.
use t.Prelude.{
  ℕ, ◌≡◌, refl, false, none, some, List, [], ◌∷◌, Outcome, ok, err, same, if◌then◌else◌, Map,
  lookup, ◌+◌, arith,
}
use t.Multiplexer.Link.{Link, link_size, marshal}
use t.Shared.{peer_hash}
use t.State.PeerMap.{new_peer_map, negotiate}
use t.Server.Samples.{registry, sessions, host, to_client}
use t.Server.Negotiation.{reply, client_negotiation}
use t.Server.Negotiation.Peers.{joined}
use t.Client.{proposal}
use t.Gateway.Apex.{Where, ApexServer, https_name, with_port, new_apex, handle_lookup}
use t.Multiplexer.Protocol.Registry.{find}
use t.Client.Commands.{Target}
use t.Client.Cli.{TunnelFlags, tunnel_line, run_tunnel, tunnel_opts, cli}
use t.Client.Startup.{pos, proposed, Handshake, scheme_of, discover, tunnel}
use t.Client.Startup.Discovery.{tunnel_meets}

-- "t"
abbrev domain : List ℕ
domain = 116 ∷ []

abbrev target : Target
target = record { scheme = https_name; host = host; hostname = host; port = [] }

abbrev parse_url : List ℕ → Outcome (Unit {0}) Target
parse_url text = ok target

-- JSON: the port, and the address behind it. A port is written as itself.
abbrev encode : Where → List ℕ
encode w = w.port ∷ w.addr

abbrev decode_where : List ℕ → Outcome (Unit {0}) Where
decode_where [] = err tt
decode_where (p ∷ a) = ok (record { addr = a; port = p })

abbrev apex : ApexServer
apex = record { hostname = domain; host = domain; client_port = 443 }

-- The protocol 259 is QUIC.
abbrev given : TunnelFlags
given = record {
  server = some domain;
  forward = none;
  overwrite = false;
  protocol = some (pos 259);
}

abbrev get_page : List ℕ → Outcome (Unit {0}) (ℕ × List ℕ)
get_page asked = ok (handle_lookup encode apex)

abbrev dialers : Map ℕ
dialers = (3, 1) ∷ []

-- The bytes of the reply.
abbrev shake : Handshake (Unit {0})
shake = record {
  written = ok link_size;
  got = ok (marshal (reply 7 host (proposal 3)));
  named = ok host;
}

abbrev dial : ℕ → List ℕ → Outcome (Unit {0}) (ℕ × Handshake (Unit {0}))
dial d addr = if same addr (with_port (λ n. n ∷ []) domain 443) then ok (6, shake) else err tt

tunnel_meets_example :
    (cli false (tunnel_line given) ≡ ok (run_tunnel (tunnel_opts given domain)))
    × (client_negotiation {F = Unit {0}} registry
          (λ p w. false)
          7
          1
          (sessions [])
          5
          host
          (3 ∷ [])
          (ok (marshal (proposal 3)))
          (ok link_size)
          (ok tt)
        ≡ (joined (peer_hash host) (peer_hash host + 100) (sessions []), none))
    × (tunnel registry
          (λ p w. false)
          dialers
          dial
          parse_url
          (tunnel_opts given domain)
          (discover (λ n. n ∷ []) get_page decode_where domain)
        ≡ ok (record {
          sessions = joined 7 107 (new_peer_map (peer_hash host));
          peer = 107;
          hostname = host;
          host_header = host;
        }))
unfolding lookup negotiate reply find scheme_of new_apex tunnel_opts proposed
tunnel_meets_example =
    tunnel_meets registry (λ p w. false) dialers dial parse_url (λ n. n ∷ []) get_page encode
      decode_where 1 false given domain target 1 apex domain 443 7 host host (sessions []) 6 5
      (3 ∷ []) 107 (peer_hash host + 100) refl refl refl (λ e. cc) (λ w. refl) refl refl refl refl
      (omega arith) refl refl refl refl

abbrev dialled : Outcome (Unit {0}) ℕ
dialled = ok 9

abbrev raw_stream : Link
raw_stream = record to_client { alpn = 3 }
