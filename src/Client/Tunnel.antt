-- ===== src/Client/Tunnel.antt =====
-- client/tunnel.go against gateway/gateway.go: the streams that visitors cause, at the client.
use t.Prelude.{◌≡◌, refl, ◌⊎◌, inl, inr, Bool-cases, ◌==◌, Outcome, Outcome-cases, arith}
use t.Multiplexer.Alpn
use t.Multiplexer.Link.{Link}
use t.Client.{
  Scheme, http_scheme, https_scheme, tcp_scheme, other_scheme, closed, forwarded, joined_to,
  treat_stream,
}

-- Whatever link a stream has and whatever the target is, the client does not exit for it; and a
-- stream is joined to the target only for a raw link and a target over TCP, and given to the HTTP
-- forwarder only for an HTTP link and a target over HTTP or HTTPS.
pub treat_stream_lem :
    {F N : Type 0} (scheme : Scheme) (dialled : Outcome F N) (link : Link)
    → (treat_stream scheme dialled link ≡ closed)
      ⊎ (((n : N) × (treat_stream scheme dialled link ≡ joined_to n)
            × (link.alpn ≡ Alpn.raw)
            × (scheme ≡ tcp_scheme))
          ⊎ ((treat_stream scheme dialled link ≡ forwarded)
              × (link.alpn ≡ Alpn.http)
              × ((scheme ≡ http_scheme) ⊎ (scheme ≡ https_scheme))))
unfolding treat_stream
treat_stream_lem http_scheme dialled link = elim (Bool-cases (link.alpn == Alpn.http)) [
  | inl http ↦ inr (inr (ground (arith, http), ground (arith, http), inl refl))
  | inr other ↦ inl (ground (arith, other))
]
treat_stream_lem https_scheme dialled link = elim (Bool-cases (link.alpn == Alpn.http)) [
  | inl http ↦ inr (inr (ground (arith, http), ground (arith, http), inr refl))
  | inr other ↦ inl (ground (arith, other))
]
treat_stream_lem tcp_scheme dialled link = elim (Bool-cases (link.alpn == Alpn.raw)) [
  | inl raw ↦ elim (Outcome-cases dialled) [
    | inl (n, there) ↦ inr (inl (n, ground (arith, raw, there), ground (arith, raw), refl))
    | inr (inl (e, failing)) ↦ inl (ground (arith, raw, failing))
    | inr (inr failing) ↦ inl (ground (arith, raw, failing))
  ]
  | inr other ↦ inl (ground (arith, other))
]
treat_stream_lem other_scheme dialled link = inl refl
