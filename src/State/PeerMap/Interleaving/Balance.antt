-- ===== src/State/PeerMap/Interleaving/Balance.antt =====
-- state/peer_map.go: the counter against the map, under any interleaving.
use t.Prelude.{
  ℕ, zero, suc, ◌+◌, ◌%◌, ◌^◌, ◌≡◌, refl, none, some, List, [], ◌∷◌, ◌++◌, Outcome, ok, length,
  lookup, HasDistinctKeys, insert-HasDistinctKeys, delete-HasDistinctKeys, length-insert_new,
  length-insert_old, length-delete, Option-cases, Option, inl, inr, arith,
}
use t.State.PeerMap.{PeerMap, PeerError}
use t.State.PeerMap.Counter.{IsCounted}
use t.State.PeerMap.Interleaving.{
  Phase, loading, negotiating, storing, adding, notifying, finished, Call, System, Event, begin, go,
  delete_entry, subtract, act, go_call, delete_step, subtract_step, step, run, start,
}

-- 1 for a call that has stored its session and not yet counted it.
abbrev uncounted : {P E : Type 0} → Phase P E → ℕ
uncounted (adding p) = 1
uncounted _ = 0

abbrev pub count_uncounted : {P E : Type 0} → List (Call P E) → ℕ
count_uncounted [] = 0
count_uncounted (c ∷ cs) = uncounted c.phase + count_uncounted cs

-- The counter and the calls that are still to count, against the entries, the sessions lost and
-- the removals that are still to count.
pub record IsBalanced {P E : Type 0} (s : System P E) : Type 0 where
  pub distinct : HasDistinctKeys s.map.peers
  pub balance :
      (s.map.num + count_uncounted s.calls) % 2 ^ 64
      ≡ (length s.map.peers + s.replaced + s.subtracting) % 2 ^ 64

module _ {P E : Type 0} where
  act-balance :
      (k : ℕ) (phase : Phase P E) (r : Outcome (PeerError E) P) (m : PeerMap P) (a b : ℕ)
      → HasDistinctKeys m.peers
      → (m.num + uncounted phase + a) % 2 ^ 64 ≡ (length m.peers + b) % 2 ^ 64
      → let (m', n, phase') = act k phase r m in
        HasDistinctKeys m'.peers
        × ((m'.num + uncounted phase' + a) % 2 ^ 64 ≡ (length m'.peers + (b + n)) % 2 ^ 64)
  unfolding act
  act-balance k (storing p) r m a b d h = elim (Option-cases (lookup k m.peers)) [
    | inl e ↦
        (insert-HasDistinctKeys k p m.peers d, ground (arith, length-insert_new k p m.peers e))
    | inr (q, e) ↦
        (insert-HasDistinctKeys k p m.peers d, ground (arith, length-insert_old k p q m.peers e))
  ]
  act-balance k loading r m a b d h = ground arith
  act-balance k negotiating (ok p) m a b d h = ground arith
  act-balance k negotiating _ m a b d h = ground arith
  act-balance k (adding p) r m a b d h = (d, omega arith)
  act-balance k (notifying p) r m a b d h = (d, omega arith)
  act-balance k (finished e) r m a b d h = (d, omega arith)

  go_call-balance :
      (i : ℕ) (r : Outcome (PeerError E) P) (m : PeerMap P) (cs : List (Call P E)) (a b : ℕ)
      → HasDistinctKeys m.peers
      → (m.num + count_uncounted cs + a) % 2 ^ 64 ≡ (length m.peers + b) % 2 ^ 64
      → let (m', n, cs') = go_call i r m cs in
        HasDistinctKeys m'.peers
        × ((m'.num + count_uncounted cs' + a) % 2 ^ 64 ≡ (length m'.peers + (b + n)) % 2 ^ 64)
  unfolding go_call
  go_call-balance i r m [] a b d h = (d, omega arith)
  go_call-balance zero r m (c ∷ cs) a b d h =
      let (d', e) = act-balance c.peer c.phase r m (count_uncounted cs + a) b d (omega arith) in
      (d', omega (arith, e))
  go_call-balance (suc i) r m (c ∷ cs) a b d h =
      let (d', e) = go_call-balance i r m cs (uncounted c.phase + a) b d (omega arith) in
      (d', omega (arith, e))

  count_uncounted-append :
      (cs ds : List (Call P E))
      → count_uncounted (cs ++ ds) ≡ count_uncounted cs + count_uncounted ds
  count_uncounted-append [] ds = omega arith
  count_uncounted-append (c ∷ cs) ds = omega (arith, count_uncounted-append cs ds)

  delete-balance :
      (k : ℕ) (s : System P E) (o : Option P)
      → lookup k s.map.peers ≡ o
      → IsBalanced s
      → IsBalanced (delete_step k s o)
  unfolding delete_step
  delete-balance k s none e v = v
  delete-balance k s (some p) e v = record {
    distinct = delete-HasDistinctKeys k s.map.peers v.distinct;
    balance = omega (arith, v.balance, length-delete k p s.map.peers v.distinct e);
  }

  subtract-balance :
      (s : System P E) (n : ℕ) → s.subtracting ≡ n → IsBalanced s → IsBalanced (subtract_step s n)
  unfolding subtract_step
  subtract-balance s zero e v = v
  subtract-balance s (suc n) e v = record {
    distinct = v.distinct;
    balance = omega (arith, v.balance, e);
  }

  -- Every action of every goroutine keeps the balance.
  pub step-IsBalanced : (s : System P E) (e : Event P E) → IsBalanced s → IsBalanced (step s e)
  unfolding step
  step-IsBalanced s (begin k) v = record {
    distinct = v.distinct;
    balance = omega (
      arith,
      v.balance,
      count_uncounted-append s.calls (record { peer = k; phase = loading } ∷ []),
    );
  }
  step-IsBalanced s (go i r) v =
      let (d, e) =
        go_call-balance i r s.map s.calls 0 (s.replaced + s.subtracting) v.distinct
          (omega (arith, v.balance)) in
      record { distinct = d; balance = omega (arith, e) }
  step-IsBalanced s (delete_entry k) v = delete-balance k s (lookup k s.map.peers) refl v
  step-IsBalanced s subtract v = subtract-balance s s.subtracting refl v

  pub run-IsBalanced :
      (s : System P E) (es : List (Event P E)) → IsBalanced s → IsBalanced (run s es)
  unfolding run
  run-IsBalanced s [] v = v
  run-IsBalanced s (e ∷ es) v = run-IsBalanced (step s e) es (step-IsBalanced s e v)

  start-IsBalanced : (m : PeerMap P) → IsCounted m → IsBalanced (start {E = E} m)
  unfolding start
  start-IsBalanced m v = record { distinct = v.distinct; balance = omega (arith, v.counted) }

  -- From a map whose counter is right, whatever calls of `NewPeer` and `Remove` are made and
  -- however their actions interleave: once no call is between its change of the map and its change
  -- of the counter, no peer has two entries, and the counter is the number of the entries plus the
  -- number of sessions that a later store replaced, modulo 2 ^ 64.
  pub num_at_rest :
      (m : PeerMap P) (es : List (Event P E))
      → IsCounted m
      → count_uncounted (run (start m) es).calls ≡ 0
      → (run (start m) es).subtracting ≡ 0
      → HasDistinctKeys (run (start m) es).map.peers
        × ((run (start m) es).map.num % 2 ^ 64
            ≡ (length (run (start m) es).map.peers + (run (start m) es).replaced) % 2 ^ 64)
  num_at_rest m es v quiet done =
      let w = run-IsBalanced (start m) es (start-IsBalanced m v) in
      (w.distinct, omega (arith, w.balance, quiet, done))
