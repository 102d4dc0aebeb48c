-- ===== src/Server/Negotiation.antt =====
-- server/peers.go and clients.go: the first exchange on an accepted connection, up to `NewPeer`.
pub mod Peers
pub mod Clients
pub mod Reading
pub mod Panics
use t.Prelude.{
  ℕ, Bool, true, false, not, ◌&&◌, ◌||◌, Option, none, some, List, [], ◌∷◌, ◌++◌, Outcome, ok, err,
  panic, ◌>>=◌, ◌>>◌, guard, contains, length, ◌==◌, if◌then◌else◌, Map, drop, take,
}
use t.Bytes.{make, copy}
use t.Multiplexer.Alpn
use t.Multiplexer.Config.{Config}
use t.Multiplexer.Link.{Link, link_size, marshal, unmarshal, LinkError}
use t.Multiplexer.Protocol.Registry.{find}
use t.Shared.{peer_hash}
use t.State.PeerMap.{PeerMap, PeerError, crashed, new_peer}

-- The errors, in the order in which they can come about.
pub data NegotiationError (E F : Type 0) : Type 0 where
  reading_handshake : F → NegotiationError E F
  unmarshal_link : NegotiationError E F
  invalid_alpn : NegotiationError E F
  unacceptable_protocol : ℕ → NegotiationError E F
  negotiating_protocol : NegotiationError E F
  invalid_handshake : Link → NegotiationError E F
  replying_handshake : F → NegotiationError E F
  invalid_reply_length : ℕ → NegotiationError E F
  writing_hostname : F → NegotiationError E F
  setting_up : PeerError E → NegotiationError E F

-- The test of the identifiers in a peer's link; `self` is the server's own.
unfoldable pub is_peer_link : ℕ → Link → Bool
is_peer_link self link = not (
    (link.source == 0 || link.destination == 0)
    || (link.source == link.destination || (not (link.destination == self) || link.source == self)))

-- What `clientNegotiation` sends back for a link that is zero in both identifiers: the identifier
-- made from the new name, and the server's own.
unfoldable pub reply : ℕ → List ℕ → Link → Link
reply self name link = record link { source = peer_hash name; destination = self }

-- `conn` is the connector; the logger is never nil.
abbrev pub config : {C : Type 0} → ℕ → C → ℕ → Config C
config wait conn peer = record {
  has_logger = true;
  conn = some conn;
  peer = peer;
  initiator = false;
  wait = wait;
}

module _ {C E F P : Type 0} (registry : Map (Config C → Outcome E P)) where
  -- `multiplexer.New`, whose constructor is not used yet.
  protocol_known : ℕ → Outcome (NegotiationError E F) (Unit {0})
  unfolding find
  protocol_known proto = elim (find registry proto) [ ok c ↦ ok tt | _ ↦ err negotiating_protocol ]

  check_link : List ℕ → Link → Outcome (NegotiationError E F) Link
  unfolding protocol_known
  check_link acceptable link = do
    guard (link.alpn == Alpn.multiplexer) invalid_alpn
    guard (contains acceptable link.protocol) (unacceptable_protocol link.protocol)
    protocol_known link.protocol
    ok link

  linked : List ℕ → Outcome LinkError Link → Outcome (NegotiationError E F) Link
  linked acceptable (ok link) = check_link acceptable link
  linked acceptable (err e) = err unmarshal_link
  linked acceptable panic = panic

  -- What both kinds of handshake do with one `Read` into a zeroed buffer of 18 bytes: `got` is the
  -- bytes read, or an error.
  unfoldable pub read_link : List ℕ → Outcome F (List ℕ) → Outcome (NegotiationError E F) Link
  unfolding check_link linked
  read_link acceptable (err e) = err (reading_handshake e)
  read_link acceptable panic = panic
  read_link acceptable (ok got) = linked acceptable (unmarshal (copy (make link_size) got))

abbrev done :
    {E F P : Type 0} → PeerMap P × Option (PeerError E) → PeerMap P × Option (NegotiationError E F)
done (s, none) = (s, none)
done (s, some e) = (s, some (setting_up e))

-- `wait` is the second that a session must stay open, and `closes` says of
-- a session that it does not.
module _ {C E F P : Type 0} (registry : Map (Config C → Outcome E P)) (closes : P → ℕ → Bool)
    (self wait : ℕ) where
  abbrev with_peer :
      PeerMap P
      → C
      → Outcome (NegotiationError E F) Link
      → PeerMap P × Option (NegotiationError E F)
  with_peer s conn (err e) = (s, some e)
  with_peer s conn panic = (s, some (setting_up crashed))
  with_peer s conn (ok link) =
      if is_peer_link self link
      then done (new_peer registry closes s link.protocol (config wait conn link.source))
      else (s, some (invalid_handshake link))

  -- `peerNegotiation`: the sessions with peers, and the error or none.
  unfoldable pub peer_negotiation :
      PeerMap P → C → List ℕ → Outcome F (List ℕ) → PeerMap P × Option (NegotiationError E F)
  unfolding is_peer_link read_link
  peer_negotiation s conn acceptable got = with_peer s conn (read_link registry acceptable got)

  -- `written` is what `Write` of the reply comes to, `encoded` what sending the host name does.
  abbrev answer :
      List ℕ → Outcome F ℕ → Outcome F (Unit {0}) → Link → Outcome (NegotiationError E F) Link
  answer name (err e) encoded link = err (replying_handshake e)
  answer name panic encoded link = panic
  answer name (ok n) (err e) link =
      if n == link_size then err (writing_hostname e) else err (invalid_reply_length n)
  answer name (ok n) panic link = if n == link_size then panic else err (invalid_reply_length n)
  answer name (ok n) (ok _) link =
      if n == link_size then ok (reply self name link) else err (invalid_reply_length n)

  abbrev with_client :
      PeerMap P
      → C
      → Outcome (NegotiationError E F) Link
      → PeerMap P × Option (NegotiationError E F)
  with_client s conn (err e) = (s, some e)
  with_client s conn panic = (s, some (setting_up crashed))
  with_client s conn (ok link) =
      done (new_peer registry closes s link.protocol (config wait conn link.source))

  abbrev zero_link : Link → Outcome (NegotiationError E F) Link
  zero_link link =
      if not (link.source == 0) || not (link.destination == 0)
      then err (invalid_handshake link)
      else ok link

  -- `clientNegotiation`: the sessions with clients, and the error or none. `name` is the random
  -- host name.
  unfoldable pub client_negotiation :
      PeerMap P
      → C
      → List ℕ
      → List ℕ
      → Outcome F (List ℕ)
      → Outcome F ℕ
      → Outcome F (Unit {0})
      → PeerMap P × Option (NegotiationError E F)
  unfolding read_link reply
  client_negotiation s conn name acceptable got written encoded = with_client s conn (do
    link ← read_link registry acceptable got
    zero ← zero_link link
    answer name written encoded zero)
