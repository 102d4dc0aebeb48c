-- ===== src/State/PeerMap/Results.antt =====
-- state/peer_map.go: the results of a call of `NewPeer`.
use t.Prelude.{
  ℕ, ◌≡◌, refl, sym, ◌∙◌, Bool, none, some, Option-cases, Outcome, ok, err, panic, Map, lookup, ◌⊎◌,
  inl, inr, arith,
}
use t.Multiplexer.Config.{Config}
use t.State.PeerMap.{
  PeerMap, PeerError, session_already_established, store, count_up, announce, settle, negotiate,
  new_peer,
}

module _ {P C E : Type 0} (registry : Map (Config C → Outcome E P)) (closes : P → ℕ → Bool)
    (s : PeerMap P) where
  -- `NewPeer` gives up on a session that is there, or negotiates one.
  pub new_peer_cases :
      (proto : ℕ) (conf : Config C)
      → ((lookup conf.peer s.peers ≡ none)
          × (new_peer registry closes s proto conf
              ≡ settle conf.peer s (negotiate registry closes proto conf)))
        ⊎ (new_peer registry closes s proto conf ≡ (s, some session_already_established))
  unfolding new_peer
  new_peer_cases proto conf = elim (Option-cases (lookup conf.peer s.peers)) [
    | inl e ↦ inl (e, ground (arith, e))
    | inr (p, e) ↦ inr (ground (arith, e))
  ]

settle_ok :
    {P E : Type 0} (k : ℕ) (s t : PeerMap P) (o : Outcome (PeerError E) P)
    → settle k s o ≡ (t, none)
    → (p : P) × (o ≡ ok p) × (t ≡ announce p (count_up (store k p s)))
unfolding settle
settle_ok k s t (ok p) h = (p, refl, ground arith)
settle_ok k s t (err e) h = cc
settle_ok k s t panic h = cc

settle_error :
    {P E : Type 0} (k : ℕ) (s t : PeerMap P) (o : Outcome (PeerError E) P) (e : PeerError E)
    → settle k s o ≡ (t, some e)
    → t ≡ s
unfolding settle
settle_error k s t o e h = ground arith

module _ {P C E : Type 0} (registry : Map (Config C → Outcome E P)) (closes : P → ℕ → Bool)
    (s t : PeerMap P) (proto : ℕ) (conf : Config C) where
  -- Without an error there was no session with the peer, the negotiation gave one, and it was
  -- stored, counted and announced.
  pub new_peer_ok :
      new_peer registry closes s proto conf ≡ (t, none)
      → (p : P) × (lookup conf.peer s.peers ≡ none)
        × (negotiate registry closes proto conf ≡ ok p)
        × (t ≡ announce p (count_up (store conf.peer p s)))
  new_peer_ok h = elim (new_peer_cases registry closes s proto conf) [
    | inl (fresh, e) ↦
        let (p, n, q) =
          settle_ok conf.peer s t (negotiate registry closes proto conf) (sym e ∙ h) in
        (p, fresh, n, q)
    | inr e ↦ cc
  ]

  -- With an error the map is as it was.
  pub new_peer_error :
      (e : PeerError E) → new_peer registry closes s proto conf ≡ (t, some e) → t ≡ s
  new_peer_error e h = elim (new_peer_cases registry closes s proto conf) [
    | inl (fresh, q) ↦
        settle_error conf.peer s t (negotiate registry closes proto conf) e (sym q ∙ h)
    | inr q ↦ cc
  ]
