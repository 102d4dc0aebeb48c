-- ===== src/Server/Leader/Timer.antt =====
-- server/leader.go: `leaderTimer`, and its channel to itself.
use t.Prelude.{
  ℕ, ◌≤◌, ◌<◌, ◌≡◌, ◌≢◌, refl, inl, inr, List, [], ◌∷◌, true, false, some, Option-cases, arith,
}
use t.Server.Leader.{
  Leadership, Event, told, changed, tell, take_start, take_stop, fire, check_over, send_start,
  lowest, view, step, run, change, is_told, send, expire,
}

-- A check of the certificates starts only at the end of the timer, and only at a node that takes
-- itself for the leader.
pub checks_as_leader :
    (s t : Leadership) (e : Event)
    → step s e ≡ some t
    → s.checking < t.checking
    → (e ≡ fire) × (s.current ≡ s.self)
unfolding step
checks_as_leader s t fire h more = ground arith
checks_as_leader s t (changed snapshot) h more = ground arith
checks_as_leader s t tell h more = ground arith
checks_as_leader s t take_start h more = ground arith
checks_as_leader s t take_stop h more = ground arith
checks_as_leader s t check_over h more = ground arith
checks_as_leader s t send_start h more = ground arith

-- From any state in which the timer runs at a leader with nothing in `stopLeader`: a change of
-- membership that brings another leader, the send that follows, and then the end of the timer before `leaderTimer`
-- has received the stop, leave `leaderTimer` waiting on itself.
pub timer_sticks :
    (s : Leadership) (snapshot : List ℕ)
    → s.timer ≡ true
    → s.stuck ≡ false
    → s.telling ≡ told
    → s.stops ≡ false
    → s.current ≡ s.self
    → lowest (view s.self snapshot) ≢ s.self
    → (t : Leadership) × (run s (changed snapshot ∷ tell ∷ fire ∷ []) ≡ some t) × (t.stuck ≡ true)
unfolding run step change is_told send expire
timer_sticks s snapshot timing free rest empty leading other = (
  record s { current = lowest (view s.self snapshot); timer = false; stops = true; stuck = true },
  ground arith,
  refl,
)

step-stuck :
    (s t : Leadership) (e : Event)
    → s.stuck ≡ true
    → s.stops ≡ true
    → step s e ≡ some t
    → (t.stuck ≡ true) × (t.stops ≡ true) × (t.checking ≤ s.checking)
unfolding step
step-stuck s t (changed snapshot) h k r = ground arith
step-stuck s t tell h k r = ground arith
step-stuck s t _ h k r = ground arith

-- A `leaderTimer` that waits on itself, with `stopLeader` full, does so for good: whatever happens
-- from there, it still waits, the channel is still full, and no more checks are running.
pub stuck_forever :
    (s t : Leadership) (es : List Event)
    → s.stuck ≡ true
    → s.stops ≡ true
    → run s es ≡ some t
    → (t.stuck ≡ true) × (t.stops ≡ true) × (t.checking ≤ s.checking)
unfolding run
stuck_forever s t [] h k r = ground arith
stuck_forever s t (e ∷ es) h k r = elim (Option-cases (step s e)) [
  | inl stop ↦ ground (arith, stop)
  | inr (u, go) ↦
      let (hu, ku, cu) = step-stuck s u e h k go in
      let (ht, kt, ct) = stuck_forever u t es hu ku (ground (arith, go)) in (ht, kt, omega arith)
]
