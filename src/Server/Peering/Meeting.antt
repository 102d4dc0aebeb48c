-- ===== src/Server/Peering/Meeting.antt =====
-- server/gossip.go against peers.go: `connectPeer` at one node and `peerNegotiation` at the other.
use t.Prelude.{
  ℕ, ◌≡◌, refl, ◌≢◌, Bool, true, none, some, List, Outcome, ok, contains, Map, lookup,
  Outcome-cases, inl, inr, arith,
}
use t.Bytes.{IsByte, IsU64}
use t.Multiplexer.Config.{Config}
use t.Multiplexer.Link.{IsLink, marshal}
use t.Multiplexer.Protocol.Registry.{find}
use t.State.PeerMap.{PeerMap, new_peer, negotiate}
use t.Server.Meta.{Meta}
use t.Server.Negotiation.{config, is_peer_link, peer_negotiation}
use t.Server.Negotiation.Peers.{joined}
use t.Server.Negotiation.Reading.{read_link-marshal}
use t.Mux.Dialing.{Dialer}
use t.Server.Peering.{peer_link, initiator_config, connect_peer}

-- A negotiation that gives a session, with a peer of whom there is none, registers it.
pub new_peer-joined :
    {P C E : Type 0} (registry : Map (Config C → Outcome E P)) (closes : P → ℕ → Bool)
    (s : PeerMap P) (proto : ℕ) (conf : Config C) (p : P)
    → lookup conf.peer s.peers ≡ none
    → negotiate registry closes proto conf ≡ ok p
    → new_peer registry closes s proto conf ≡ (joined conf.peer p s, none)
unfolding new_peer
new_peer-joined registry closes s proto conf p fresh agreed = ground (arith, fresh, agreed)

peer_link-IsLink :
    (self : ℕ) (m : Meta)
    → IsU64 self
    → IsU64 m.peer_id
    → IsByte m.protocol
    → IsLink (peer_link self m)
unfolding peer_link
peer_link-IsLink self m a b c = record {
  source_fits = a;
  destination_fits = b;
  protocol_fits = c;
  alpn_fits = omega arith;
}

is_peer_link-peer_link :
    (self : ℕ) (m : Meta)
    → self ≢ 0
    → m.peer_id ≢ 0
    → self ≢ m.peer_id
    → is_peer_link m.peer_id (peer_link self m) ≡ true
unfolding is_peer_link peer_link
is_peer_link-peer_link self m a b c = ground arith

-- A session is negotiated only by a constructor that is registered.
pub negotiate_found :
    {P C E : Type 0} (registry : Map (Config C → Outcome E P)) (closes : P → ℕ → Bool) (proto : ℕ)
    (conf : Config C) (p : P)
    → negotiate registry closes proto conf ≡ ok p
    → (construct : Config C → Outcome E P) × (find registry proto ≡ ok construct)
unfolding negotiate
negotiate_found registry closes proto conf p h = elim (Outcome-cases (find registry proto)) [
  | inl known ↦ known
  | inr (inl (e, unknown)) ↦ ground (arith, unknown, h)
  | inr (inr unknown) ↦ ground (arith, unknown, h)
]

module _ {C E F P T : Type 0} (registry : Map (Config C → Outcome E P)) (closes : P → ℕ → Bool)
    (dialers : Map (Dialer C F T)) (wait : ℕ) where
  -- A node dials a peer with another identifier, neither being 0, over a protocol that the peer
  -- accepts; neither has a session with the other, the dialer and the write succeed, and at each
  -- end the session is negotiated. Then the peer, which reads the bytes that were written, ends its
  -- handshake without an error, and so does the dialling: each has the session with the other,
  -- under the other's identifier, counted and announced.
  pub peers_meet :
      (self : ℕ) (m : Meta) (s t : PeerMap P) (near far : C) (dial : Dialer C F T)
      (acceptable : List ℕ) (p q : P)
      → IsU64 self
      → IsU64 m.peer_id
      → IsByte m.protocol
      → self ≢ 0
      → m.peer_id ≢ 0
      → self ≢ m.peer_id
      → contains acceptable m.protocol ≡ true
      → find dialers m.protocol ≡ ok dial
      → (dial m.connect_ip m.connect_port).error ≡ none
      → (dial m.connect_ip m.connect_port).connector ≡ some near
      → lookup m.peer_id s.peers ≡ none
      → lookup self t.peers ≡ none
      → negotiate registry closes m.protocol (initiator_config wait (some near) m.peer_id) ≡ ok p
      → negotiate registry closes m.protocol (config wait far self) ≡ ok q
      → (connect_peer registry closes dialers wait s m (ok tt)
          ≡ record { sessions = joined m.peer_id p s; error = none; closed = none })
        × (peer_negotiation {F = F} registry closes m.peer_id wait t far acceptable
              (ok (marshal (peer_link self m)))
            ≡ (joined self q t, none))
  unfolding connect_peer peer_negotiation peer_link
  peers_meet self m s t near far dial acceptable p q a b c d e f accepted known_dial dialled
        connected new new' agreed agreed' =
      let near_conf = initiator_config wait (some near) m.peer_id in
      let (construct, known) =
        negotiate_found registry closes m.protocol (config wait far self) q agreed' in
      (
        ground (
          arith,
          known_dial,
          dialled,
          connected,
          new_peer-joined registry closes s m.protocol near_conf p new agreed,
        ),
        ground (
          arith,
          read_link-marshal {F = F} registry (peer_link self m) acceptable construct
              (peer_link-IsLink self m a b c) refl accepted known,
          is_peer_link-peer_link self m d e f,
          new_peer-joined registry closes t m.protocol (config wait far self) q new' agreed',
        ),
      )
