-- ===== src/Gateway/Browsing.antt =====
-- gateway/tunnel_http.go against server/clients.go and client/tunnel.go: an HTTP request to the host
-- name of a client.
use t.Prelude.{ℕ, Bool, ◌≡◌, refl, none, some, List, Outcome, err, arith}
use t.Multiplexer.Alpn
use t.Multiplexer.Link.{Link}
use t.State.ConnectedClients.{Filter}
use t.Server.Routing.{Router, RouteError, destination_not_found, find_path}
use t.Gateway.{link_for, dial_tunnel, Failure, failure_of, error_status}

-- When the node knows of no way to the client of a host name, the answer is 404.
pub dial_tunnel-not_found :
    {E P T : Type 0} (contains : Filter → ℕ → Bool) (dial : P → Link → Outcome E T)
    (of_peer : E → Failure) (s : Router P) (addr : List ℕ)
    → find_path contains s (link_for s.id addr Alpn.http_name) ≡ none
    → (e : RouteError E) × (dial_tunnel contains dial s addr ≡ err e)
      × (error_status (failure_of of_peer e) ≡ some 404)
unfolding dial_tunnel error_status
dial_tunnel-not_found contains dial of_peer s addr h =
    (destination_not_found, ground (arith, h), refl)
