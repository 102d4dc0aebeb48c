-- ===== src/Server/Negotiation/Clients.antt =====
-- server/clients.go: `clientNegotiation` by its results.
use t.Prelude.{
  ℕ, ◌≡◌, refl, Bool, none, some, List, Outcome, ok, err, panic, Map, lookup, ◌>>=◌, >>=-eq-ok,
  arith,
}
use t.Multiplexer.Config.{Config}
use t.Multiplexer.Link.{Link, link_size}
use t.Shared.{peer_hash}
use t.State.PeerMap.{PeerMap, negotiate, new_peer}
use t.State.PeerMap.Results.{new_peer_ok, new_peer_error}
use t.Server.Negotiation.{
  NegotiationError, read_link, config, reply, answer, zero_link, with_client, client_negotiation,
}
use t.Server.Negotiation.Peers.{IsOffer, read_link_ok, done_ok, done_error, joined}

module _ {C E F P : Type 0} (registry : Map (Config C → Outcome E P)) (closes : P → ℕ → Bool)
    (self wait : ℕ) where
  zero_link_ok :
      (x link : Link)
      → zero_link {F = F} registry closes self wait x ≡ ok link
      → (x ≡ link) × (link.source ≡ 0) × (link.destination ≡ 0)
  zero_link_ok x link h = ground arith

  answer_ok :
      (name : List ℕ) (written : Outcome F ℕ) (encoded : Outcome F (Unit {0})) (x link : Link)
      → answer registry closes self wait name written encoded x ≡ ok link
      → (written ≡ ok link_size) × (encoded ≡ ok tt) × (link ≡ reply self name x)
  answer_ok name (ok n) (ok _) x link h = ground arith
  answer_ok name (ok n) (err e) x link h = ground arith
  answer_ok name (ok n) panic x link h = ground arith
  answer_ok name (err e) encoded x link h = cc
  answer_ok name panic encoded x link h = cc

module _ {C E F P : Type 0} (registry : Map (Config C → Outcome E P)) (closes : P → ℕ → Bool)
    (self wait : ℕ) (s t : PeerMap P) (conn : C) where
  with_client_ok :
      (o : Outcome (NegotiationError E F) Link)
      → with_client registry closes self wait s conn o ≡ (t, none)
      → (link : Link) × (p : P) × (o ≡ ok link)
        × (lookup link.source s.peers ≡ none)
        × (negotiate registry closes link.protocol (config wait conn link.source) ≡ ok p)
        × (t ≡ joined link.source p s)
  with_client_ok (ok link) h =
      let conf = config wait conn link.source in
      let x = new_peer registry closes s link.protocol conf in
      let (p, fresh, n, e) =
        new_peer_ok registry closes s t link.protocol conf (done_ok {F = F} x t h) in
      (link, p, refl, fresh, n, e)
  with_client_ok (err e) h = cc
  with_client_ok panic h = cc

  with_client_error :
      (o : Outcome (NegotiationError E F) Link) (e : NegotiationError E F)
      → with_client registry closes self wait s conn o ≡ (t, some e)
      → t ≡ s
  with_client_error (ok link) e h =
      let conf = config wait conn link.source in
      let x = new_peer registry closes s link.protocol conf in
      let (e', q) = done_error x t e h in new_peer_error registry closes s t link.protocol conf e' q
  with_client_error (err x) e h = ground arith
  with_client_error panic e h = ground arith

  -- A handshake with a client that ends without an error was offered for the multiplexer over an
  -- acceptable protocol, in a link with no identifiers; the whole reply and the host name were
  -- sent; there was no session under the hash of the name, and now there is the negotiated one,
  -- counted and announced.
  pub client_negotiation_ok :
      (name acceptable : List ℕ) (got : Outcome F (List ℕ)) (written : Outcome F ℕ)
      (encoded : Outcome F (Unit {0}))
      → client_negotiation registry closes self wait s conn name acceptable got written encoded
        ≡ (t, none)
      → (link : Link) × (p : P) × IsOffer acceptable got link
        × (link.source ≡ 0)
        × (link.destination ≡ 0)
        × (written ≡ ok link_size)
        × (encoded ≡ ok tt)
        × (lookup (peer_hash name) s.peers ≡ none)
        × (negotiate registry closes link.protocol (config wait conn (peer_hash name)) ≡ ok p)
        × (t ≡ joined (peer_hash name) p s)
  unfolding client_negotiation reply
  client_negotiation_ok name acceptable got written encoded h =
      let finish = answer registry closes self wait name written encoded in
      let check = zero_link {F = F} registry closes self wait in
      let (link, p, e, fresh, n, q) = with_client_ok _ h in
      let (x, read, rest) =
        >>=-eq-ok (read_link registry acceptable got) (λ l. check l >>= finish) e in
      let (z, zero', answered) = >>=-eq-ok (check x) finish rest in
      let (same, src, dst) = zero_link_ok registry closes self wait x z zero' in
      let (w, c, replied) =
        answer_ok registry closes self wait name written encoded z link answered in
      (
        z,
        p,
        read_link_ok registry acceptable got z (rw same at read),
        src,
        dst,
        w,
        c,
        rw replied at fresh,
        rw replied at n,
        rw replied at q,
      )

  -- A handshake with a client that ends with an error leaves the sessions as they were.
  pub client_negotiation_error :
      (name acceptable : List ℕ) (got : Outcome F (List ℕ)) (written : Outcome F ℕ)
      (encoded : Outcome F (Unit {0})) (e : NegotiationError E F)
      → client_negotiation registry closes self wait s conn name acceptable got written encoded
        ≡ (t, some e)
      → t ≡ s
  unfolding client_negotiation
  client_negotiation_error name acceptable got written encoded e h = with_client_error _ e h
