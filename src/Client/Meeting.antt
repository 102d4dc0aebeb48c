-- ===== src/Client/Meeting.antt =====
-- client/tunnel.go against server/clients.go: `peerNegotiation` at the client and `clientNegotiation` at
-- the server.
use t.Prelude.{
  ℕ, Bool, ◌≡◌, refl, sym, ◌∙◌, true, none, List, Outcome, ok, contains, Map, lookup, arith,
}
use t.Bytes.{IsByte, IsU64, copy, copy_whole}
use t.Multiplexer.Config.{Config}
use t.Multiplexer.Link.{Link, IsLink, link_size, marshal}
use t.Multiplexer.Link.RoundTrip.{link_roundtrip, length-marshal}
use t.Shared.{peer_hash, peer_hash-IsU64}
use t.State.PeerMap.{PeerMap, new_peer_map, negotiate}
use t.Server.Negotiation.{config, reply, client_negotiation}
use t.Server.Negotiation.Peers.{joined}
use t.Server.Negotiation.Reading.{read_link-marshal}
use t.Server.Peering.Meeting.{new_peer-joined, negotiate_found}
use t.Client.{proposal, peer_negotiation, client_config, register_server}

proposal-IsLink : (proto : ℕ) → IsByte proto → IsLink (proposal proto)
unfolding proposal
proposal-IsLink proto v = record {
  source_fits = omega arith;
  destination_fits = omega arith;
  protocol_fits = v;
  alpn_fits = omega arith;
}

reply-IsLink :
    (self : ℕ) (name : List ℕ) (proto : ℕ)
    → IsU64 self
    → IsByte proto
    → IsLink (reply self name (proposal proto))
unfolding proposal reply
reply-IsLink self name proto v w = record {
  source_fits = peer_hash-IsU64 name;
  destination_fits = v;
  protocol_fits = w;
  alpn_fits = omega arith;
}

module _ {N F : Type 0} where
  -- The client reads the reply over the bytes of its proposal.
  peer_negotiation-marshal :
      (proto : ℕ) (link : Link) (name : N)
      → IsLink link
      → peer_negotiation {F = F} proto (ok link_size) (ok (marshal link)) (ok name)
        ≡ ok (link, name)
  unfolding peer_negotiation
  peer_negotiation-marshal proto link name v =
      let whole : copy (marshal (proposal proto)) (marshal link) ≡ marshal link =
        copy_whole (marshal (proposal proto)) (marshal link)
          (length-marshal (proposal proto) ∙ sym (length-marshal link)) in
      ground (arith, whole, link_roundtrip link v)

module _ {C E F P N : Type 0} (registry : Map (Config C → Outcome E P)) (closes : P → ℕ → Bool)
    (wait : ℕ) where
  -- A client proposes a protocol that the server accepts, and both ends take and give the bytes of
  -- the two links whole; the server has no client of that identifier, and at each end the session is
  -- negotiated. Then the negotiations of both end without an error: the server has the session
  -- under the hash of the name that it made, the client has one map with the one session, under the
  -- identifier of the server, and the map is the client's own by the identifier that it was given.
  pub client_meets :
      (self proto : ℕ) (name : List ℕ) (url : N) (t : PeerMap P) (near far : C)
      (acceptable : List ℕ) (p q : P)
      → IsU64 self
      → IsByte proto
      → contains acceptable proto ≡ true
      → lookup (peer_hash name) t.peers ≡ none
      → negotiate registry closes proto (config wait far (peer_hash name)) ≡ ok q
      → negotiate registry closes proto (client_config near (reply self name (proposal proto)))
        ≡ ok p
      → let given = reply self name (proposal proto) in
        (client_negotiation {F = F} registry closes self wait t far name acceptable
            (ok (marshal (proposal proto)))
            (ok link_size)
            (ok tt)
          ≡ (joined (peer_hash name) q t, none))
        × (peer_negotiation {F = F} proto (ok link_size) (ok (marshal given)) (ok url)
            ≡ ok (given, url))
        × (register_server registry closes near given
            ≡ (joined self p (new_peer_map (peer_hash name)), none))
  unfolding client_negotiation register_server proposal reply new_peer_map lookup
  client_meets self proto name url t near far acceptable p q v w accepted fresh agreed agreed' =
      let given = reply self name (proposal proto) in
      let (construct, known) =
        negotiate_found registry closes proto (config wait far (peer_hash name)) q agreed in
      (
        ground (
          arith,
          read_link-marshal {F = F} registry (proposal proto) acceptable construct
              (proposal-IsLink proto w) refl accepted known,
          new_peer-joined registry closes t proto (config wait far (peer_hash name)) q fresh agreed,
        ),
        peer_negotiation-marshal proto given url (reply-IsLink self name proto v w),
        new_peer-joined registry closes (new_peer_map (peer_hash name)) proto
            (client_config near given) p refl agreed',
      )
