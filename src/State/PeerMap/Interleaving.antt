-- ===== src/State/PeerMap/Interleaving.antt =====
-- `NewPeer` and `Remove` as the atomic actions that they consist of, by any number of goroutines
-- over one `PeerMap` in any order. `replaced` is a count of ours: the stores that found a session
-- of the same peer already there, and lost it.
pub mod Balance
pub mod Race
use t.Prelude.{
  ℕ, zero, suc, ◌+◌, Option, none, some, List, [], ◌∷◌, ◌++◌, Outcome, ok, err, panic, Map, lookup,
  Bool, true, false, if◌then◌else◌,
}
use t.State.PeerMap.{
  PeerMap, PeerError, session_already_established, crashed, has, store, count_up, count_down,
  announce, load_and_delete, get,
}

-- Where a call of `NewPeer` stands.
pub data Phase (P E : Type 0) : Type 0 where
  loading : Phase P E
  negotiating : Phase P E
  storing : P → Phase P E
  adding : P → Phase P E
  notifying : P → Phase P E
  finished : Option (PeerError E) → Phase P E

pub record Call (P E : Type 0) : Type 0 where
  pub peer : ℕ
  pub phase : Phase P E

-- `subtracting` is how many calls of `Remove` have deleted their entry and not yet counted down.
pub record System (P E : Type 0) : Type 0 where
  pub map : PeerMap P
  pub calls : List (Call P E)
  pub subtracting : ℕ
  pub replaced : ℕ

-- `go i r` is the next action of the call `i`; `r` is what its negotiation comes to, if it is that.
pub data Event (P E : Type 0) : Type 0 where
  begin : ℕ → Event P E
  go : ℕ → Outcome (PeerError E) P → Event P E
  delete_entry : ℕ → Event P E
  subtract : Event P E

-- The sessions that a store over this entry loses.
abbrev lost : {P : Type 0} → Option P → ℕ
lost none = 0
lost (some p) = 1

module _ {P E : Type 0} where
  abbrev settled : Outcome (PeerError E) P → Phase P E
  settled (ok p) = storing p
  settled (err e) = finished (some e)
  settled panic = finished (some crashed)

  -- `Load`: an entry ends the call.
  abbrev loaded : Option P → Phase P E
  loaded none = negotiating
  loaded (some p) = finished (some session_already_established)

  -- One action of a call: the map, how many sessions it replaced, and where the call stands next.
  act : ℕ → Phase P E → Outcome (PeerError E) P → PeerMap P → PeerMap P × ℕ × Phase P E
  unfolding store count_up announce
  act k loading r m = (m, 0, loaded (lookup k m.peers))
  act k negotiating r m = (m, 0, settled r)
  act k (storing p) r m = (store k p m, lost (lookup k m.peers), adding p)
  act k (adding p) r m = (count_up m, 0, notifying p)
  act k (notifying p) r m = (announce p m, 0, finished none)
  act k (finished e) r m = (m, 0, finished e)

  -- The call `i` acts; nothing happens if there is no such call.
  go_call :
      ℕ → Outcome (PeerError E) P → PeerMap P → List (Call P E) → PeerMap P × ℕ × List (Call P E)
  unfolding act
  go_call i r m [] = (m, 0, [])
  go_call zero r m (c ∷ cs) =
      let (m', n, phase) = act c.peer c.phase r m in
      (m', n, record { peer = c.peer; phase = phase } ∷ cs)
  go_call (suc i) r m (c ∷ cs) = let (m', n, cs') = go_call i r m cs in (m', n, c ∷ cs')

  -- `LoadAndDelete` in `Remove`, by what it loads.
  delete_step : ℕ → System P E → Option P → System P E
  unfolding load_and_delete
  delete_step k s none = s
  delete_step k s (some p) = record s {
    map = load_and_delete k s.map;
    subtracting = s.subtracting + 1;
  }

  -- The count of one of the calls of `Remove` that still have to, if there is one.
  subtract_step : System P E → ℕ → System P E
  unfolding count_down
  subtract_step s zero = s
  subtract_step s (suc n) = record s { map = count_down s.map; subtracting = n }

  unfoldable pub step : System P E → Event P E → System P E
  unfolding go_call delete_step subtract_step
  step s (begin k) = record s { calls = s.calls ++ record { peer = k; phase = loading } ∷ [] }
  step s (go i r) =
      let (m, n, cs) = go_call i r s.map s.calls in
      record s { map = m; calls = cs; replaced = s.replaced + n }
  step s (delete_entry k) = delete_step k s (lookup k s.map.peers)
  step s subtract = subtract_step s s.subtracting

  unfoldable pub run : System P E → List (Event P E) → System P E
  run s [] = s
  run s (e ∷ es) = run (step s e) es

  unfoldable pub start : PeerMap P → System P E
  start m = record { map = m; calls = []; subtracting = 0; replaced = 0 }
