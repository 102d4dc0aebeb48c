-- ===== src/Gateway.antt =====
-- gateway/: where a visitor's connection goes, by the server name and the protocol that its TLS
-- handshake gave (gateway.go), the listeners by protocol (alpn.go), and the status of a failed
-- request (tunnel_http.go).
pub mod Apex
pub mod Serving
pub mod Visitors
pub mod Browsing
mod Runs
use t.Prelude.{
  ℕ, Bool, true, false, ◌||◌, Option, none, some, List, [], ◌∷◌, ◌++◌, Outcome, ok, err, panic,
  same, ◌==◌, if◌then◌else◌,
}
use t.Multiplexer.Alpn
use t.Multiplexer.Link.{Link}
use t.Shared.{peer_hash}
use t.State.ConnectedClients.{Filter}
use t.Server.Routing.{Router, RouteError, destination_not_found, peer_failed, direct}

abbrev pub dot : ℕ
dot = 46

-- `strings.SplitN(sni, ".", 2)[0]`
unfoldable pub first_label : List ℕ → List ℕ
first_label [] = []
first_label (b ∷ bs) = let rest = first_label bs in if b == dot then [] else b ∷ rest

-- `Gateway.link`; `self` is the identifier of the node.
unfoldable pub link_for : ℕ → List ℕ → List ℕ → Link
unfolding first_label
link_for self sni proto = record {
  source = self;
  destination = peer_hash (first_label sni);
  protocol = 0;
  alpn = Alpn.reverse_map proto;
}

-- What becomes of a connection: the main page, the HTTP tunnel, a raw link, or it is closed.
pub data Route : Type 0 where
  apex : Route
  http_tunnel : Route
  raw_link : Link → Route
  closed : Route

-- `handleConnection`, up to `Forward`.
unfoldable pub route : List ℕ → ℕ → List ℕ → List ℕ → Route
route root self sni proto =
    if same sni root
    then apex
    else if same proto Alpn.unknown_name || same proto Alpn.http_name
    then http_tunnel
    else if same proto Alpn.raw_name
    then raw_link (link_for self sni proto)
    else closed

-- The dialling of the HTTP tunnel. `addr` is that of `net/http`: the server name with the port of
-- the scheme behind it.
module _ {E P T : Type 0} (contains : Filter → ℕ → Bool) (dial : P → Link → Outcome E T) where
  unfoldable pub dial_tunnel : Router P → List ℕ → Outcome (RouteError E) T
  unfolding direct link_for
  dial_tunnel s addr = direct contains dial s (link_for s.id addr Alpn.http_name)

-- The listeners of `ALPN.For`, by the name of the protocol; a later one takes a name over.
unfoldable pub listen_for : ℕ → List (List ℕ) → List (List ℕ × ℕ) → List (List ℕ × ℕ)
listen_for channel [] table = table
listen_for channel (proto ∷ protos) table = listen_for channel protos ((proto, channel) ∷ table)

-- `ALPN.handshake`, once TLS has agreed: the channel that gets the connection; none closes it.
unfoldable pub listener : List (List ℕ × ℕ) → List ℕ → Option ℕ
listener [] proto = none
listener ((name, channel) ∷ table) proto =
    if same name proto then some channel else listener table proto

-- What `errorHandler` and `IsTimeout` ask of an error.
pub record Failure : Type 0 where
  pub destination_not_found : Bool
  pub deadline_exceeded : Bool
  pub yamux_timeout : Bool
  pub net_timeout : Bool
  pub canceled : Bool

unfoldable pub is_timeout : Failure → Bool
is_timeout e = e.deadline_exceeded || (e.yamux_timeout || e.net_timeout)

-- The status that `errorHandler` writes, if any.
unfoldable pub error_status : Failure → Option ℕ
unfolding is_timeout
error_status e =
    if e.destination_not_found
    then some 404
    else if is_timeout e
    then some 504
    else if e.canceled
    then none
    else some 503

-- What is asked of an error of `Direct`; `of_peer` is that for an error of a session.
abbrev pub failure_of : {E : Type 0} → (E → Failure) → RouteError E → Failure
failure_of of_peer destination_not_found = record {
  destination_not_found = true;
  deadline_exceeded = false;
  yamux_timeout = false;
  net_timeout = false;
  canceled = false;
}
failure_of of_peer (peer_failed e) = of_peer e
