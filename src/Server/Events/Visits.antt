-- ===== src/Server/Events/Visits.antt =====
-- server/: a stream for a client of another node, over the session between the two nodes.
use t.Prelude.{ℕ, ◌≡◌, ◌≢◌, Bool, false, some, List, Outcome, ok, arith}
use t.Multiplexer.Link.{Link, IsLink, link_size, marshal, messaging_link}
use t.State.ConnectedClients.{Filter}
use t.State.PeerMap.{get}
use t.Mux.{accept_link}
use t.Mux.Sessions.{Peer, bidirectional, bidirectional-ok}
use t.Mux.Streams.{accept_link-marshal}
use t.Server.Routing.{Router, find_path, forward, opened}
use t.Server.Events.{handle_stream, forwarded, same_link}

-- A link from a node that is not 0 is not taken for a messaging stream.
not-messaging_link : (link : Link) → link.source ≢ 0 → same_link link messaging_link ≡ false
unfolding same_link
not-messaging_link link h = ground arith

-- `write` is the `Write` of a stream, and `open_stream` what opening a stream on a session comes to; `visitor`
-- is the connection at the first node, and `from_a` the stream that the second node accepts.
module _ {F S C T V : Type 0} (contains : Filter → ℕ → Bool) (write : T → List ℕ → T × Outcome F ℕ)
    (open_stream : Peer S C T → Outcome F T) (visitor : V) where
  -- A node other than 0 forwards a visitor's connection, with a link for a client of another node,
  -- to its session with that node; each of the two sessions opens a stream, which takes the link
  -- whole. Then the first node opens a stream in its session for the connection; the other node,
  -- which reads those bytes, takes what it accepts for a stream of that link, and opens one for it
  -- in the session of its client; and the client, which reads the bytes of that one, has a stream
  -- of the same link.
  pub two_hops :
      (a b : Router (Peer S C T)) (link : Link) (near near' mid mid' from_a at_client : T)
      (p c : Peer S C T)
      → IsLink link
      → link.source ≢ 0
      → find_path contains a link ≡ some p
      → open_stream p ≡ ok near
      → write near (marshal link) ≡ (near', ok link_size)
      → get b.clients link.destination ≡ some c
      → open_stream c ≡ ok mid
      → write mid (marshal link) ≡ (mid', ok link_size)
      → (forward contains (λ q l. bidirectional write q (open_stream q) visitor l) a link
          ≡ opened p)
        × (accept_link {F = F} from_a (ok (marshal link))
            ≡ some (record { conn = from_a; link = link }))
        × (handle_stream contains (λ q l. bidirectional write q (open_stream q) from_a l) b link
            ≡ forwarded (opened c))
        × (accept_link {F = F} at_client (ok (marshal link))
            ≡ some (record { conn = at_client; link = link }))
  unfolding forward handle_stream find_path
  two_hops a b link near near' mid mid' from_a at_client p c v from path opens takes there opens'
        takes' =
      (
        ground (arith, path, opens, bidirectional-ok write p near near' visitor link takes),
        accept_link-marshal F from_a link v,
        ground (
          arith,
          not-messaging_link link from,
          there,
          opens',
          bidirectional-ok write c mid mid' from_a link takes',
        ),
        accept_link-marshal F at_client link v,
      )
