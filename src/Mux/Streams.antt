-- ===== src/Mux/Streams.antt =====
-- mux/: a stream from the end that opens it to the end that accepts it.
use t.Prelude.{ℕ, ◌≡◌, sym, ◌∙◌, ap, List, Outcome, ok, some, arith}
use t.Bytes.{make, copy, copy-make}
use t.Multiplexer.Link.{Link, IsLink, link_size, marshal}
use t.Multiplexer.Link.RoundTrip.{link_roundtrip, length-marshal}
use t.Mux.{accept_link}
use t.Mux.Yamux
use t.Mux.Yamux.{Yamux}
use t.Mux.Mplex
use t.Mux.Mplex.{Mplex}
use t.Mux.Quic
use t.Mux.Quic.{Quic}

-- A link that is read whole is the link that was written.
pub accept_link-marshal :
    (F : Type 0) {T : Type 0} (s : T) (link : Link)
    → IsLink link
    → accept_link {F = F} s (ok (marshal link)) ≡ some (record { conn = s; link = link })
unfolding accept_link
accept_link-marshal F s link v =
    let whole : copy (make link_size) (marshal link) ≡ marshal link =
      ap (λ (n : ℕ). copy (make n) (marshal link)) (sym (length-marshal link))
      ∙ copy-make (marshal link) in
    ground (arith, whole, link_roundtrip link v)

module _ {F T S C : Type 0} (write : T → List ℕ → T × Outcome F ℕ) where
  -- In each of the three kinds of session: if a new stream takes the 18 bytes of a link whole, then
  -- `Direct` gives that stream, and a stream handshake at the other end that reads those bytes
  -- hands the same link to `Put`, with its own stream.
  pub stream_carries_link :
      (y z : Yamux S C T) (m n : Mplex S C T) (p q : Quic S T) (s s' t : T) (link : Link)
      → IsLink link
      → write s (marshal link) ≡ (s', ok link_size)
      → (Yamux.direct write y (ok s) link ≡ ok s')
        × (Yamux.stream_handshake {F = F} z t (ok (marshal link))
            ≡ some (record { conn = t; link = link }))
        × (Mplex.direct write m (ok s) link ≡ ok (Mplex.wrap m s'))
        × (Mplex.stream_handshake {F = F} n t (ok (marshal link))
            ≡ some (record { conn = Mplex.wrap n t; link = link }))
        × (Quic.direct write p (ok s) link ≡ ok (Quic.wrap_quic p.config.conn s'))
        × (Quic.stream_handshake {F = F} q t (ok (marshal link))
            ≡ some (record { conn = Quic.wrap_quic q.config.conn t; link = link }))
  unfolding Yamux.direct Yamux.stream_handshake Mplex.direct Mplex.stream_handshake Quic.direct
      Quic.stream_handshake
  stream_carries_link y z m n p q s s' t link v takes = (
    ground (arith, takes),
    accept_link-marshal F t link v,
    ground (arith, takes),
    accept_link-marshal F (Mplex.wrap n t) link v,
    ground (arith, takes),
    accept_link-marshal F (Quic.wrap_quic q.config.conn t) link v,
  )
