-- ===== src/Server/Negotiation/Peers.antt =====
-- server/peers.go: `peerNegotiation` by its results.
use t.Prelude.{
  ℕ, ◌≡◌, ◌≢◌, refl, ap, Bool, true, Option, Bool-cases, none, some, List, Outcome, ok, err, panic,
  contains, Map, lookup, inl, inr, arith,
}
use t.Bytes.{make, copy}
use t.Multiplexer.Alpn
use t.Multiplexer.Config.{Config}
use t.Multiplexer.Link.{Link, LinkError, link_size, unmarshal}
use t.State.PeerMap.{PeerMap, PeerError, store, count_up, announce, negotiate, new_peer}
use t.State.PeerMap.Results.{new_peer_ok, new_peer_error}
use t.Server.Negotiation.{
  NegotiationError, read_link, check_link, linked, is_peer_link, config, peer_negotiation,
  with_peer, done,
}

pub record IsPeerLink (self : ℕ) (link : Link) : Type 0 where
  pub has_source : link.source ≢ 0
  pub to_self : link.destination ≡ self
  pub from_other : link.source ≢ self

is_peer_link_sound : (self : ℕ) (link : Link) → is_peer_link self link ≡ true → IsPeerLink self link
unfolding is_peer_link
is_peer_link_sound self link h = ground arith

-- The bytes, padded with zeros or cut to 18, are a link that asks for the multiplexer over an
-- acceptable protocol.
pub record IsOffer {F : Type 0} (acceptable : List ℕ) (got : Outcome F (List ℕ)) (link : Link)
    : Type 0 where
  pub bytes : List ℕ
  pub read : got ≡ ok bytes
  pub parsed : unmarshal (copy (make link_size) bytes) ≡ ok link
  pub for_multiplexer : link.alpn ≡ Alpn.multiplexer
  pub protocol_accepted : contains acceptable link.protocol ≡ true

module _ {C E F P : Type 0} (registry : Map (Config C → Outcome E P)) where
  check_link_ok :
      (acceptable : List ℕ) (x link : Link)
      → check_link {F = F} registry acceptable x ≡ ok link
      → (x ≡ link) × (link.alpn ≡ Alpn.multiplexer) × (contains acceptable link.protocol ≡ true)
  unfolding check_link
  check_link_ok acceptable x link h = ground arith

  linked_ok :
      (acceptable : List ℕ) (o : Outcome LinkError Link) (link : Link)
      → linked {F = F} registry acceptable o ≡ ok link
      → (o ≡ ok link) × (link.alpn ≡ Alpn.multiplexer) × (contains acceptable link.protocol ≡ true)
  unfolding linked
  linked_ok acceptable (ok x) link h =
      let (e, a, p) = check_link_ok acceptable x link h in (ap ok e, a, p)
  linked_ok acceptable (err e) link h = cc
  linked_ok acceptable panic link h = cc

  pub read_link_ok :
      (acceptable : List ℕ) (got : Outcome F (List ℕ)) (link : Link)
      → read_link registry acceptable got ≡ ok link
      → IsOffer acceptable got link
  unfolding read_link
  read_link_ok acceptable (ok bytes) link h =
      let (e, a, p) = linked_ok acceptable (unmarshal (copy (make link_size) bytes)) link h in
      record { bytes = bytes; read = refl; parsed = e; for_multiplexer = a; protocol_accepted = p }
  read_link_ok acceptable (err e) link h = cc
  read_link_ok acceptable panic link h = cc

pub done_ok :
    {E F P : Type 0} (x : PeerMap P × Option (PeerError E)) (t : PeerMap P)
    → done {F = F} x ≡ (t, none)
    → x ≡ (t, none)
done_ok (s, none) t h = ground arith
done_ok (s, some e) t h = cc

pub done_error :
    {E F P : Type 0} (x : PeerMap P × Option (PeerError E)) (t : PeerMap P)
    (e : NegotiationError E F)
    → done x ≡ (t, some e)
    → (e' : PeerError E) × (x ≡ (t, some e'))
done_error (s, none) t e h = cc
done_error (s, some e') t e h = (e', ground arith)

-- What a new session of the link's source adds to a map.
abbrev pub joined : {P : Type 0} → ℕ → P → PeerMap P → PeerMap P
joined k p s = announce p (count_up (store k p s))

module _ {C E F P : Type 0} (registry : Map (Config C → Outcome E P)) (closes : P → ℕ → Bool)
    (self wait : ℕ) (s t : PeerMap P) (conn : C) where
  with_peer_ok :
      (o : Outcome (NegotiationError E F) Link)
      → with_peer registry closes self wait s conn o ≡ (t, none)
      → (link : Link) × (p : P) × (o ≡ ok link)
        × IsPeerLink self link
        × (lookup link.source s.peers ≡ none)
        × (negotiate registry closes link.protocol (config wait conn link.source) ≡ ok p)
        × (t ≡ joined link.source p s)
  with_peer_ok (ok link) h = elim (Bool-cases (is_peer_link self link)) [
    | inl valid ↦
        let conf = config wait conn link.source in
        let x = new_peer registry closes s link.protocol conf in
        let (p, fresh, n, e) =
          new_peer_ok registry closes s t link.protocol conf (done_ok {F = F} x t (ground arith)) in
        (link, p, refl, is_peer_link_sound self link valid, fresh, n, e)
    | inr invalid ↦ absurd (ground arith)
  ]
  with_peer_ok (err e) h = cc
  with_peer_ok panic h = cc

  with_peer_error :
      (o : Outcome (NegotiationError E F) Link) (e : NegotiationError E F)
      → with_peer registry closes self wait s conn o ≡ (t, some e)
      → t ≡ s
  with_peer_error (ok link) e h = elim (Bool-cases (is_peer_link self link)) [
    | inl valid ↦
        let conf = config wait conn link.source in
        let x = new_peer registry closes s link.protocol conf in
        let (e', q) = done_error x t e (ground arith) in
        new_peer_error registry closes s t link.protocol conf e' q
    | inr invalid ↦ ground arith
  ]
  with_peer_error (err x) e h = ground arith
  with_peer_error panic e h = ground arith

  -- A handshake with a peer that ends without an error was offered for the multiplexer over an
  -- acceptable protocol, in a link from another node, whose identifier is not 0, to this one; there
  -- was no session with that node, and now there is the negotiated one, counted and announced.
  pub peer_negotiation_ok :
      (acceptable : List ℕ) (got : Outcome F (List ℕ))
      → peer_negotiation registry closes self wait s conn acceptable got ≡ (t, none)
      → (link : Link) × (p : P) × IsOffer acceptable got link
        × IsPeerLink self link
        × (lookup link.source s.peers ≡ none)
        × (negotiate registry closes link.protocol (config wait conn link.source) ≡ ok p)
        × (t ≡ joined link.source p s)
  unfolding peer_negotiation
  peer_negotiation_ok acceptable got h =
      let (link, p, e, valid, fresh, n, q) = with_peer_ok (read_link registry acceptable got) h in
      (link, p, read_link_ok registry acceptable got link e, valid, fresh, n, q)

  -- A handshake with a peer that ends with an error leaves the sessions as they were.
  pub peer_negotiation_error :
      (acceptable : List ℕ) (got : Outcome F (List ℕ)) (e : NegotiationError E F)
      → peer_negotiation registry closes self wait s conn acceptable got ≡ (t, some e)
      → t ≡ s
  unfolding peer_negotiation
  peer_negotiation_error acceptable got e h =
      with_peer_error (read_link registry acceptable got) e h
