-- ===== src/Server/Negotiation/Reading.antt =====
-- server/peers.go and clients.go: the bytes of a link at the node that reads them.
use t.Prelude.{ℕ, ◌≡◌, sym, ap, ◌∙◌, true, List, Outcome, ok, contains, Map, arith}
use t.Bytes.{make, copy, copy-make}
use t.Multiplexer.Alpn
use t.Multiplexer.Config.{Config}
use t.Multiplexer.Link.{Link, IsLink, link_size, marshal}
use t.Multiplexer.Link.RoundTrip.{link_roundtrip, length-marshal}
use t.Multiplexer.Protocol.Registry.{find}
use t.Server.Negotiation.{read_link}

module _ {C E F P : Type 0} (registry : Map (Config C → Outcome E P)) where
  -- The bytes of a link for the multiplexer, over a protocol that is accepted and registered, are
  -- read as that link.
  pub read_link-marshal :
      (link : Link) (acceptable : List ℕ) (construct : Config C → Outcome E P)
      → IsLink link
      → link.alpn ≡ Alpn.multiplexer
      → contains acceptable link.protocol ≡ true
      → find registry link.protocol ≡ ok construct
      → read_link {F = F} registry acceptable (ok (marshal link)) ≡ ok link
  unfolding read_link
  read_link-marshal link acceptable construct v tunnels accepted known =
      let whole : copy (make link_size) (marshal link) ≡ marshal link =
        ap (λ (n : ℕ). copy (make n) (marshal link)) (sym (length-marshal link))
        ∙ copy-make (marshal link) in
      ground (arith, whole, link_roundtrip link v, tunnels, accepted, known)
