-- ===== src/Gateway/Visitors.antt =====
-- gateway/gateway.go against server/clients.go: a visitor to the host name of a client.
use t.Prelude.{
  ℕ, Bool, false, ◌≡◌, ◌≢◌, refl, ap, ◌∙◌, some, List, [], ◌∷◌, ◌++◌, Outcome, ok, same, All, arith,
}
use t.Multiplexer.Alpn
use t.Multiplexer.Link.{Link}
use t.Shared.{peer_hash}
use t.State.ConnectedClients.{Filter}
use t.State.PeerMap.{get}
use t.Server.Routing.{Router, find_path, opened, forward}
use t.Server.Negotiation.{reply}
use t.Gateway.{dot, first_label, link_for, raw_link, route}

pub first_label-append :
    (name domain : List ℕ) → All (λ b. b ≢ dot) name → first_label (name ++ dot ∷ domain) ≡ name
unfolding first_label
first_label-append [] domain h = refl
first_label-append (b ∷ name) domain (plain, h) = ground (arith, first_label-append name domain h)

pub link-reply :
    (self : ℕ) (name domain proto : List ℕ) (link : Link)
    → All (λ b. b ≢ dot) name
    → (link_for self (name ++ dot ∷ domain) proto).destination ≡ (reply self name link).source
unfolding link_for reply
link-reply self name domain proto link h = ap peer_hash (first_label-append name domain h)

-- A visitor asks for the host name of a client by the raw protocol, and the host name is not the
-- gateway's own: if the node has a session under the identifier that its handshake gave to that
-- name, and the session opens a stream for the link, then the connection is routed as a raw link
-- to that identifier, and handed to that session.
pub raw_reaches_client :
    {E P : Type 0} (contains : Filter → ℕ → Bool) (bidirectional : P → Link → Outcome E (Unit {0}))
    (s : Router P) (root name domain : List ℕ) (greeting : Link) (p : P)
    → All (λ b. b ≢ dot) name
    → same (name ++ dot ∷ domain) root ≡ false
    → get s.clients (reply s.id name greeting).source ≡ some p
    → ((link : Link) → bidirectional p link ≡ ok tt)
    → (link : Link) × (route root s.id (name ++ dot ∷ domain) Alpn.raw_name ≡ raw_link link)
      × (link.alpn ≡ Alpn.raw)
      × (forward contains bidirectional s link ≡ opened p)
unfolding route forward find_path link_for Alpn.reverse_map
raw_reaches_client contains bidirectional s root name domain greeting p plain other there opens =
    let link = link_for s.id (name ++ dot ∷ domain) Alpn.raw_name in
    let there' : get s.clients link.destination ≡ some p =
      ap (get s.clients) (link-reply s.id name domain Alpn.raw_name greeting plain) ∙ there in
    (link, ground (arith, other), refl, ground (arith, there', opens link))
