-- ===== src/Setup/Start/Listeners.antt =====
-- cmd/server/main.go against gateway/: who gets a connection, by the protocol that its TLS handshake
-- agreed on.
use t.Prelude.{
  ℕ, ◌≡◌, ◌≢◌, refl, sym, ◌⊎◌, inl, inr, Bool-cases, none, some, List, same, eq_of_same, ne_of_same,
  arith,
}
use t.Multiplexer.Alpn
use t.Gateway.{listener, apex, http_tunnel, raw_link, link_for, route}
use t.Setup.Start.{alpn_table, to_clients, to_gateway}

-- Where the gateway takes a connection: one for its own server name goes to the main page; of the
-- others, one over HTTP or without a protocol goes to the HTTP tunnel, and one over the raw protocol
-- is forwarded, with the link for its server name.
abbrev pub Routed : List ℕ → List ℕ → List ℕ → ℕ → Type 0
Routed proto root sni self =
    ((sni ≡ root) × (route root self sni proto ≡ apex))
    ⊎ ((sni ≢ root)
        × ((((proto ≡ Alpn.unknown_name) ⊎ (proto ≡ Alpn.http_name))
              × (route root self sni proto ≡ http_tunnel))
            ⊎ ((proto ≡ Alpn.raw_name)
                × (route root self sni proto ≡ raw_link (link_for self sni proto)))))

unknown-Routed : (root sni : List ℕ) (self : ℕ) → Routed Alpn.unknown_name root sni self
unfolding route
unknown-Routed root sni self = elim (Bool-cases (same sni root)) [
  | inl own ↦ inl (eq_of_same sni root own, ground (arith, own))
  | inr other ↦ inr (λ e. ne_of_same sni root other (sym e), inl (inl refl, ground (arith, other)))
]

http-Routed : (root sni : List ℕ) (self : ℕ) → Routed Alpn.http_name root sni self
unfolding route
http-Routed root sni self = elim (Bool-cases (same sni root)) [
  | inl own ↦ inl (eq_of_same sni root own, ground (arith, own))
  | inr other ↦ inr (λ e. ne_of_same sni root other (sym e), inl (inr refl, ground (arith, other)))
]

raw-Routed : (root sni : List ℕ) (self : ℕ) → Routed Alpn.raw_name root sni self
unfolding route
raw-Routed root sni self = elim (Bool-cases (same sni root)) [
  | inl own ↦ inl (eq_of_same sni root own, ground (arith, own))
  | inr other ↦ inr (λ e. ne_of_same sni root other (sym e), inr (refl, ground (arith, other)))
]

-- Whatever protocol a connection to a started node agreed on, and whatever server it asks for:
-- either the protocol is that of the multiplexer, and the listener for clients gets the connection;
-- or the gateway gets it, and takes it to the main page if the server is its own, else to the HTTP
-- tunnel if the protocol is HTTP or none, else it is to be forwarded by the raw protocol, with the
-- link for that server; or the protocol is none of the four that there are, and no listener gets
-- the connection.
pub alpn_served :
    (proto root sni : List ℕ) (self : ℕ)
    → ((proto ≡ Alpn.multiplexer_name) × (listener alpn_table proto ≡ some to_clients))
      ⊎ (((listener alpn_table proto ≡ some to_gateway) × Routed proto root sni self)
          ⊎ ((listener alpn_table proto ≡ none)
              × (proto ≢ Alpn.unknown_name)
              × (proto ≢ Alpn.multiplexer_name)
              × (proto ≢ Alpn.http_name)
              × (proto ≢ Alpn.raw_name)))
unfolding alpn_table listener
alpn_served proto root sni self = elim (Bool-cases (same Alpn.unknown_name proto)) [
  | inl e ↦
      rw (← eq_of_same Alpn.unknown_name proto e) (inr (inl (refl, unknown-Routed root sni self)))
  | inr e ↦ elim (Bool-cases (same Alpn.http_name proto)) [
    | inl e1 ↦
        rw (← eq_of_same Alpn.http_name proto e1) (inr (inl (refl, http-Routed root sni self)))
    | inr e1 ↦ elim (Bool-cases (same Alpn.raw_name proto)) [
      | inl e2 ↦
          rw (← eq_of_same Alpn.raw_name proto e2) (inr (inl (refl, raw-Routed root sni self)))
      | inr e2 ↦ elim (Bool-cases (same Alpn.multiplexer_name proto)) [
        | inl e3 ↦ rw (← eq_of_same Alpn.multiplexer_name proto e3) (inl (refl, refl))
        | inr e3 ↦ inr (
            inr (
              ground (arith, e, e1, e2, e3),
              ne_of_same Alpn.unknown_name proto e,
              ne_of_same Alpn.multiplexer_name proto e3,
              ne_of_same Alpn.http_name proto e1,
              ne_of_same Alpn.raw_name proto e2,
            ))
      ]
    ]
  ]
]
