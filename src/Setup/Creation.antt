-- ===== src/Setup/Creation.antt =====
-- server/server.go: the node that `New` makes.
use t.Prelude.{
  ℕ, ◌≡◌, refl, inl, inr, Outcome-cases, Option-cases, Option, none, some, String, List, [], ◌∷◌,
  Outcome, ok, lookup, arith,
}
use t.Bytes.{slice}
use t.Acme.{Text}
use t.Server.Meta.{blank, marshal, unmarshal}
use t.Server.Meta.RoundTrip.{IsMeta, meta_roundtrip}
use t.State.PeerMap.{new_peer_map, get}
use t.State.PeerMap.Counter.{IsCounted}
use t.Setup.{Config, validate, Created, decode_keys, make_keyring, own_meta, new_router, new_server}

module _ {E P : Type 0} (decode : Text → Outcome E Text)
    (new_keyring : List Text → Outcome E (Unit {0})) (parse_ip : String → Option (List ℕ))
    (self : ℕ) where
  -- A node that is made has the description and the router of a new one.
  pub new_server_made :
      (c : Config) (m : Created P)
      → new_server decode new_keyring parse_ip self c ≡ ok m
      → (b : List ℕ) × (marshal parse_ip (own_meta self c) ≡ ok b)
        × (m ≡ record { router = new_router self; meta = own_meta self c; meta_bytes = b })
  unfolding new_server
  new_server_made c m h = elim (Option-cases (validate {E = E} c)) [
    | inl valid ↦
        elim (Outcome-cases
          (make_keyring decode new_keyring (decode_keys decode new_keyring c.keyring))) [
            | inl (u, keyed) ↦ elim (Outcome-cases (marshal parse_ip (own_meta self c))) [
              | inl (b, made) ↦ (b, made, ground (arith, h, valid, keyed, made))
              | inr (inl (e, failing)) ↦ absurd (ground (arith, h, valid, keyed, failing))
              | inr (inr failing) ↦ absurd (ground (arith, h, valid, keyed, failing))
            ]
            | inr (inl (e, failing)) ↦ absurd (ground (arith, h, valid, failing))
            | inr (inr failing) ↦ absurd (ground (arith, h, valid, failing))
          ]
    | inr (e, invalid) ↦ absurd (ground (arith, h, invalid))
  ]

  new_peer_map-IsCounted : IsCounted (new_peer_map {P = P} self)
  unfolding new_peer_map
  new_peer_map-IsCounted = record { distinct = tt; counted = refl }

  -- A node that `New` makes without an error, at an address that is parsed into sixteen bytes, the
  -- last four of which are shown as it was written, and with fields that fit the description: what
  -- it tells the others is read by them as its own description, under the identifier that it routes
  -- by; and it has no sessions, with counters that say so.
  pub new_server_describes :
      (show_ip : List ℕ → String) (c : Config) (m : Created P) (ip : List ℕ) (w x y z : ℕ)
      → IsMeta (own_meta self c)
      → parse_ip c.advertise_addr ≡ some ip
      → slice ip 12 16 ≡ w ∷ x ∷ y ∷ z ∷ []
      → show_ip (w ∷ x ∷ y ∷ z ∷ []) ≡ c.advertise_addr
      → new_server decode new_keyring parse_ip self c ≡ ok m
      → (unmarshal show_ip blank m.meta_bytes ≡ ok m.meta)
        × (m.meta.peer_id ≡ m.router.id)
        × IsCounted m.router.peers
        × IsCounted m.router.clients
        × ((k : ℕ) → (get m.router.peers k ≡ none) × (get m.router.clients k ≡ none))
  unfolding get new_peer_map lookup
  new_server_describes show_ip c m ip w x y z v parsed four shown h =
      let (b, made, e) = new_server_made c m h in
      let (buf, made', read) =
        meta_roundtrip parse_ip show_ip (own_meta self c) blank v ip w x y z parsed four shown in
      let same_bytes : buf ≡ b = ground (arith, made, made') in
      rw e (
        ground (arith, read, same_bytes),
        refl,
        new_peer_map-IsCounted,
        new_peer_map-IsCounted,
        λ k. (refl, refl),
      )
