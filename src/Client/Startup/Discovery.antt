-- ===== src/Client/Startup/Discovery.antt =====
-- client/tunnel.go against gateway/apex.go and server/clients.go: a client finds the server through the
-- gateway's main page and ends with a session with it.
use t.Prelude.{
  ℕ, Bool, true, false, ◌≡◌, ◌≢◌, refl, none, some, List, ◌++◌, Outcome, ok, contains, Map, lookup,
  arith,
}
use t.Bytes.{IsByte, IsU64}
use t.Multiplexer.Config.{Config}
use t.Multiplexer.Link.{link_size, marshal}
use t.Multiplexer.Protocol.Registry.{find}
use t.Shared.{peer_hash}
use t.State.PeerMap.{PeerMap, new_peer_map, store, count_up, announce, negotiate}
use t.Server.Negotiation.{config, reply, client_negotiation}
use t.Server.Negotiation.Peers.{joined}
use t.Gateway.Apex.{Where, ApexServer, new_apex, handle_lookup, with_port}
use t.Client.{proposal, client_config, Scheme, http_scheme, https_scheme, tcp_scheme, other_scheme}
use t.Client.Meeting.{client_meets}
use t.Client.Commands.{Target}
use t.Client.Cli.{TunnelFlags, tunnel_line, run_tunnel, tunnel_opts, cli}
use t.Client.Startup.{
  ℤ, pos, negsuc, proposed, Handshake, https_prefix, where_path, scheme_of, check_scheme, discover,
  tunnel,
}

proposed-IsByte : (i : ℤ) → IsByte (proposed i)
unfolding proposed
proposed-IsByte (pos n) = omega arith
proposed-IsByte (negsuc n) = omega arith

-- The answer of the gateway leads the client to its root domain and port.
discover-handle_lookup :
    {E F : Type 0} (decimal : ℕ → List ℕ) (get_page : List ℕ → Outcome F (ℕ × List ℕ))
    (encode : Where → List ℕ) (decode_where : List ℕ → Outcome F Where) (server root : List ℕ)
    (port : ℕ) (apex : ApexServer)
    → ((w : Where) → decode_where (encode w) ≡ ok w)
    → new_apex decimal {E = F} root port (ok tt) (ok tt) ≡ ok apex
    → get_page (https_prefix ++ (server ++ where_path)) ≡ ok (handle_lookup encode apex)
    → discover {E = E} decimal get_page decode_where server ≡ ok (with_port decimal root port)
unfolding discover new_apex handle_lookup
discover-handle_lookup decimal get_page encode decode_where server root port apex decoded made
      answered =
    let where_to : apex.hostname ≡ root = ground (arith, made) in
    let where_port : apex.client_port ≡ port = ground (arith, made) in
    ground (
      arith,
      answered,
      decoded (record { addr = apex.hostname; port = apex.client_port }),
      where_to,
      where_port,
    )

check_scheme_known :
    {E F : Type 0} (s : Scheme) → s ≢ other_scheme → check_scheme {E = E} {F = F} s ≡ ok tt
check_scheme_known http_scheme h = refl
check_scheme_known https_scheme h = refl
check_scheme_known tcp_scheme h = refl
check_scheme_known other_scheme h = absurd (h refl)

module _ {C D E F P : Type 0} (registry : Map (Config C → Outcome E P)) (closes : P → ℕ → Bool)
    (dialers : Map D) (dial : D → List ℕ → Outcome F (C × Handshake F))
    (parse_url : List ℕ → Outcome F Target) (decimal : ℕ → List ℕ)
    (get_page : List ℕ → Outcome F (ℕ × List ℕ)) (encode : Where → List ℕ)
    (decode_where : List ℕ → Outcome F Where) (wait : ℕ) where
  -- A client that is started with `tunnel` and the domain of a server, without the flag to
  -- overwrite the host of requests, and that forwards to an HTTP, HTTPS or TCP target, asks that
  -- domain for the address of the server, and is answered by the main page of a gateway; JSON is
  -- decoded to what was encoded. The protocol that it proposes, the lowest byte of the flag, or
  -- mplex without one, has a dialer and is accepted by the server; dialling the root domain and the
  -- port of that gateway succeeds, and both ends take and give the bytes of the two links whole.
  -- The server has no client of that identifier, and at each end the session is negotiated. Then
  -- the command line is read as a tunnel with those options; the negotiation of the server ends
  -- without an error, with the session under the hash of the name that it made; and the client runs
  -- under the name that it was given, with that one session, and the host of its target in its
  -- requests.
  pub tunnel_meets :
      (debug : Bool) (given : TunnelFlags) (server : List ℕ) (u : Target) (d : D)
      (apex : ApexServer) (root : List ℕ) (port : ℕ) (self : ℕ) (name url : List ℕ) (t : PeerMap P)
      (near far : C) (acceptable : List ℕ) (p q : P)
      → let opts = tunnel_opts given server in
        let answer = reply self name (proposal (proposed opts.proto)) in
        given.server ≡ some server
        → given.overwrite ≡ false
        → parse_url opts.forward ≡ ok u
        → scheme_of u.scheme ≢ other_scheme
        → ((w : Where) → decode_where (encode w) ≡ ok w)
        → new_apex decimal {E = F} root port (ok tt) (ok tt) ≡ ok apex
        → get_page (https_prefix ++ (server ++ where_path)) ≡ ok (handle_lookup encode apex)
        → find dialers (proposed opts.proto) ≡ ok d
        → dial d (with_port decimal root port)
          ≡ ok (near, record { written = ok link_size; got = ok (marshal answer); named = ok url })
        → IsU64 self
        → contains acceptable (proposed opts.proto) ≡ true
        → lookup (peer_hash name) t.peers ≡ none
        → negotiate registry closes (proposed opts.proto) (config wait far (peer_hash name)) ≡ ok q
        → negotiate registry closes (proposed opts.proto) (client_config near answer) ≡ ok p
        → (cli debug (tunnel_line given) ≡ ok (run_tunnel opts))
          × (client_negotiation {F = F} registry closes self wait t far name acceptable
                (ok (marshal (proposal (proposed opts.proto))))
                (ok link_size)
                (ok tt)
              ≡ (joined (peer_hash name) q t, none))
          × (tunnel registry closes dialers dial parse_url opts
                (discover decimal get_page decode_where server)
              ≡ ok (record {
                sessions = joined self p (new_peer_map (peer_hash name));
                peer = p;
                hostname = url;
                host_header = u.host;
              }))
  unfolding tunnel cli tunnel_opts new_peer_map store count_up announce
  tunnel_meets debug given server u d apex root port self name url t near far acceptable p q named
        plain parsed known decoded made answered found dialled v accepted fresh agreed agreed' =
      let opts = tunnel_opts given server in
      let (served, negotiated, met) =
        client_meets {F = F} registry closes wait self (proposed opts.proto) name url t near far
          acceptable p q v (proposed-IsByte opts.proto) accepted fresh agreed agreed' in
      let led =
        discover-handle_lookup {E = E} decimal get_page encode decode_where server root port apex
          decoded made answered in
      (
        rw named refl,
        served,
        rw
            (
              parsed,
              check_scheme_known (scheme_of u.scheme) known,
              led,
              found,
              dialled,
              negotiated,
              met,
              plain,
            )
            refl,
      )
