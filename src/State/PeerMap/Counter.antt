-- ===== src/State/PeerMap/Counter.antt =====
-- state/peer_map.go: the counter against the map, with no two calls at once.
use t.Prelude.{
  ℕ, ◌%◌, ◌^◌, ◌≡◌, ◌≢◌, refl, Bool, length, none, some, Outcome, ok, err, panic, Map, lookup,
  HasDistinctKeys, insert-HasDistinctKeys, delete-HasDistinctKeys, length-insert_new, length-delete,
  lookup-delete, Option-cases, ◌⊎◌, inl, inr, arith,
}
use t.Multiplexer.Config.{Config}
use t.State.PeerMap.{
  PeerMap, PeerError, settle, load_and_delete, count_down, new_peer, negotiate, remove, get,
}
use t.State.PeerMap.Results.{new_peer_cases}

pub record IsCounted {P : Type 0} (s : PeerMap P) : Type 0 where
  pub distinct : HasDistinctKeys s.peers
  pub counted : s.num ≡ length s.peers % 2 ^ 64

settle-IsCounted :
    {P E : Type 0} (k : ℕ) (s : PeerMap P) (o : Outcome (PeerError E) P)
    → IsCounted s
    → lookup k s.peers ≡ none
    → IsCounted (settle k s o).0
unfolding settle
settle-IsCounted k s (err e) v h = v
settle-IsCounted k s panic v h = v
settle-IsCounted k s (ok p) v h = record {
  distinct = insert-HasDistinctKeys k p s.peers v.distinct;
  counted = omega (arith, length-insert_new k p s.peers h, v.counted);
}

module _ {P C E : Type 0} (registry : Map (Config C → Outcome E P)) (closes : P → ℕ → Bool)
    (s : PeerMap P) (v : IsCounted s) where
  -- `NewPeer`, on every branch, keeps one entry to a peer and the counter right.
  pub new_peer-IsCounted :
      (proto : ℕ) (conf : Config C) → IsCounted (new_peer registry closes s proto conf).0
  new_peer-IsCounted proto conf = elim (new_peer_cases registry closes s proto conf) [
    | inl (fresh, e) ↦
        rw e (settle-IsCounted conf.peer s (negotiate registry closes proto conf) v fresh)
    | inr e ↦ rw e v
  ]

module _ {P : Type 0} (s : PeerMap P) where
  remove_cases :
      (peer : ℕ)
      → ((lookup peer s.peers ≡ none) × (remove s peer ≡ (s, none)))
        ⊎ ((p : P) × (lookup peer s.peers ≡ some p)
            × (remove s peer ≡ (count_down (load_and_delete peer s), some p)))
  unfolding remove
  remove_cases peer = elim (Option-cases (lookup peer s.peers)) [
    | inl e ↦ inl (e, ground (arith, e))
    | inr (p, e) ↦ inr (p, e, ground (arith, e))
  ]

module _ {P : Type 0} (s : PeerMap P) (v : IsCounted s) where
  -- `Remove` keeps one entry to a peer and the counter right, and afterwards the peer is gone and
  -- every other peer has the session that it had.
  pub remove-IsCounted :
      (peer : ℕ)
      → IsCounted (remove s peer).0
        × (get (remove s peer).0 peer ≡ none)
        × ((j : ℕ) → j ≢ peer → get (remove s peer).0 j ≡ get s j)
  unfolding get count_down load_and_delete
  remove-IsCounted peer = elim (remove_cases s peer) [
    | inl (absent, e) ↦ rw e (v, absent, λ j h. refl)
    | inr (p, found, e) ↦ rw e (
      record {
        distinct = delete-HasDistinctKeys peer s.peers v.distinct;
        counted = omega (arith, length-delete peer p s.peers v.distinct found, v.counted);
      },
      ground (arith, lookup-delete peer peer s.peers),
      λ j h. ground (arith, lookup-delete peer j s.peers),
    )
  ]
