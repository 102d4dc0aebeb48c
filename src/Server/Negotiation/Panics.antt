-- ===== src/Server/Negotiation/Panics.antt =====
-- server/peers.go and clients.go: what makes a handshake panic.
use t.Prelude.{
  ℕ, ◌≡◌, ◌≢◌, refl, sym, ◌∙◌, ◌⊎◌, inl, inr, Bool, ◌>>=◌, Bool-cases, Option, Outcome-cases, none,
  some, List, Outcome, ok, err, panic, Map, arith,
}
use t.Multiplexer.Config.{Config}
use t.Multiplexer.Link.{Link, unmarshal}
use t.Multiplexer.Protocol.Registry.{find}
use t.State.PeerMap.{PeerMap, PeerError, crashed, settle, negotiate, new_peer}
use t.State.PeerMap.Results.{new_peer_cases}
use t.Server.Negotiation.{
  NegotiationError, setting_up, read_link, protocol_known, check_link, linked, is_peer_link, config,
  with_peer, peer_negotiation, answer, zero_link, with_client, client_negotiation, done,
}

-- A constructor of the registry panics at some configuration.
pub record ConstructorPanics {C E P : Type 0} (registry : Map (Config C → Outcome E P))
    : Type 0 where
  pub proto : ℕ
  pub conf : Config C
  pub construct : Config C → Outcome E P
  pub registered : find registry proto ≡ ok construct
  pub panics : construct conf ≡ panic

module _ {C E P : Type 0} (registry : Map (Config C → Outcome E P)) (closes : P → ℕ → Bool) where
  negotiate_crash :
      (proto : ℕ) (conf : Config C)
      → (negotiate registry closes proto conf ≡ err crashed)
        ⊎ (negotiate registry closes proto conf ≡ panic)
      → ConstructorPanics registry
  unfolding negotiate find
  negotiate_crash proto conf h = elim (Outcome-cases (find registry proto)) [
    | inl (construct, known) ↦ elim (Outcome-cases (construct conf)) [
      | inl (p, made) ↦ absurd (ground (arith, h, known, made))
      | inr (inl (e, failing)) ↦ absurd (ground (arith, h, known, failing))
      | inr (inr failing) ↦ record {
        proto = proto;
        conf = conf;
        construct = construct;
        registered = known;
        panics = failing;
      }
    ]
    | inr (inl (e, unknown)) ↦ absurd (ground (arith, h, unknown))
    | inr (inr unknown) ↦ absurd (ground (arith, unknown))
  ]

  settle_crash :
      (k : ℕ) (s t : PeerMap P) (o : Outcome (PeerError E) P)
      → settle k s o ≡ (t, some crashed)
      → (o ≡ err crashed) ⊎ (o ≡ panic)
  unfolding settle
  settle_crash k s t (ok p) h = cc
  settle_crash k s t (err e) h = inl (ground (arith, h))
  settle_crash k s t panic h = inr refl

  new_peer_crash :
      (s t : PeerMap P) (proto : ℕ) (conf : Config C)
      → new_peer registry closes s proto conf ≡ (t, some crashed)
      → ConstructorPanics registry
  new_peer_crash s t proto conf h = elim (new_peer_cases registry closes s proto conf) [
    | inl (fresh, e) ↦
        negotiate_crash proto conf
          (settle_crash conf.peer s t (negotiate registry closes proto conf) (sym e ∙ h))
    | inr e ↦ cc
  ]

module _ {C E F P : Type 0} (registry : Map (Config C → Outcome E P)) where
  -- Reading the link panics only with the connection, and its errors are not those of `NewPeer`.
  read_link_panic :
      (acceptable : List ℕ) (got : Outcome F (List ℕ))
      → read_link registry acceptable got ≡ panic
      → got ≡ panic
  unfolding read_link linked check_link protocol_known unmarshal
  read_link_panic acceptable (ok b) h = absurd (ground (arith, h))
  read_link_panic acceptable (err e) h = cc
  read_link_panic acceptable panic h = refl

  read_link_setting_up :
      (acceptable : List ℕ) (got : Outcome F (List ℕ)) (e : PeerError E)
      → read_link registry acceptable got ≢ err (setting_up e)
  unfolding read_link linked check_link protocol_known unmarshal
  read_link_setting_up acceptable (ok b) e h = ground (arith, h)
  read_link_setting_up acceptable (err x) e h = cc
  read_link_setting_up acceptable panic e h = cc

done_crash :
    {E F P : Type 0} (x : PeerMap P × Option (PeerError E)) (t : PeerMap P)
    → done {F = F} x ≡ (t, some (setting_up crashed))
    → x ≡ (t, some crashed)
done_crash (s, none) t h = cc
done_crash (s, some e) t h = ground (arith, h)

module _ {C E F P : Type 0} (registry : Map (Config C → Outcome E P)) (closes : P → ℕ → Bool)
    (self wait : ℕ) (s t : PeerMap P) (conn : C) where
  with_peer_panic :
      (o : Outcome (NegotiationError E F) Link)
      → ((e : PeerError E) → o ≢ err (setting_up e))
      → with_peer registry closes self wait s conn o ≡ (t, some (setting_up crashed))
      → (o ≡ panic) ⊎ ConstructorPanics registry
  with_peer_panic (ok link) other h = elim (Bool-cases (is_peer_link self link)) [
    | inl valid ↦
        let conf = config wait conn link.source in
        let x = new_peer registry closes s link.protocol conf in
        inr (
          new_peer_crash registry closes s t link.protocol conf
            (done_crash {F = F} x t (ground (arith, h, valid))))
    | inr invalid ↦ absurd (ground (arith, h, invalid))
  ]
  with_peer_panic (err e) other h = absurd (other crashed (ground (arith, h)))
  with_peer_panic panic other h = inl refl

  -- `peerNegotiation` panics only with its connection or a constructor.
  pub peer_negotiation_panic :
      (acceptable : List ℕ) (got : Outcome F (List ℕ))
      → peer_negotiation registry closes self wait s conn acceptable got
        ≡ (t, some (setting_up crashed))
      → (got ≡ panic) ⊎ ConstructorPanics registry
  unfolding peer_negotiation
  peer_negotiation_panic acceptable got h =
      elim (with_peer_panic (read_link registry acceptable got)
        (read_link_setting_up registry acceptable got) h) [
          | inl o ↦ inl (read_link_panic registry acceptable got o)
          | inr c ↦ inr c
        ]

  answered :
      List ℕ → Outcome F ℕ → Outcome F (Unit {0}) → Link → Outcome (NegotiationError E F) Link
  answered name written encoded link = do
    zero ← zero_link registry closes self wait link
    answer registry closes self wait name written encoded zero

  answered_panic :
      (name : List ℕ) (written : Outcome F ℕ) (encoded : Outcome F (Unit {0})) (link : Link)
      → answered name written encoded link ≡ panic
      → (written ≡ panic) ⊎ (encoded ≡ panic)
  unfolding answered
  answered_panic name (ok n) (ok u) link h = absurd (ground (arith, h))
  answered_panic name (ok n) (err e) link h = absurd (ground (arith, h))
  answered_panic name (ok n) panic link h = inr refl
  answered_panic name (err e) encoded link h = absurd (ground (arith, h))
  answered_panic name panic encoded link h = inl refl

  answered_setting_up :
      (name : List ℕ) (written : Outcome F ℕ) (encoded : Outcome F (Unit {0})) (link : Link)
      (e : PeerError E)
      → answered name written encoded link ≢ err (setting_up e)
  unfolding answered
  answered_setting_up name (ok n) (ok u) link e h = ground (arith, h)
  answered_setting_up name (ok n) (err x) link e h = ground (arith, h)
  answered_setting_up name (ok n) panic link e h = ground (arith, h)
  answered_setting_up name (err x) encoded link e h = ground (arith, h)
  answered_setting_up name panic encoded link e h = ground (arith, h)

  with_client_panic :
      (o : Outcome (NegotiationError E F) Link)
      → ((e : PeerError E) → o ≢ err (setting_up e))
      → with_client registry closes self wait s conn o ≡ (t, some (setting_up crashed))
      → (o ≡ panic) ⊎ ConstructorPanics registry
  with_client_panic (ok link) other h =
      let conf = config wait conn link.source in
      let x = new_peer registry closes s link.protocol conf in
      inr (new_peer_crash registry closes s t link.protocol conf (done_crash {F = F} x t h))
  with_client_panic (err e) other h = absurd (other crashed (ground (arith, h)))
  with_client_panic panic other h = inl refl

  -- `clientNegotiation` panics only with its connection or a constructor.
  pub client_negotiation_panic :
      (name acceptable : List ℕ) (got : Outcome F (List ℕ)) (written : Outcome F ℕ)
      (encoded : Outcome F (Unit {0}))
      → client_negotiation registry closes self wait s conn name acceptable got written encoded
        ≡ (t, some (setting_up crashed))
      → ((got ≡ panic) ⊎ ((written ≡ panic) ⊎ (encoded ≡ panic))) ⊎ ConstructorPanics registry
  unfolding client_negotiation
  client_negotiation_panic name acceptable got written encoded h =
      let o = read_link registry acceptable got in
      elim (Outcome-cases o) [
        | inl (link, read) ↦
            let rest : with_client registry closes self wait s conn
                  (answered name written encoded link)
                ≡ (t, some (setting_up crashed)) =
              unfold answered in rw read at h in
            elim (with_client_panic (answered name written encoded link)
              (answered_setting_up name written encoded link) rest) [
                | inl p ↦ inl (inr (answered_panic name written encoded link p))
                | inr c ↦ inr c
              ]
        | inr (inl (e, failing)) ↦
            absurd
              (read_link_setting_up registry acceptable got crashed (ground (arith, h, failing)))
        | inr (inr failing) ↦ inl (inl (read_link_panic registry acceptable got failing))
      ]
