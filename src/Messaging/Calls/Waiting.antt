-- ===== src/Messaging/Calls/Waiting.antt =====
-- messaging/rpc.go: the goroutines of `handleRPC` that come too late for their call.
use t.Prelude.{
  ℕ, ◌+◌, ◌≤◌, ◌≡◌, refl, sym, ◌⊎◌, inl, inr, Bool, true, false, Option, none, some, Option-cases,
  Bool-cases, List, [], ◌∷◌, ◌++◌, ◌==◌, if◌then◌else◌, lookup, insert, delete, lookup-insert,
  arith,
}
use t.Messaging.Calls.{
  replied, timed_out, gone, Phase, writing, waiting, leaving, returned, Handing, Calls, Event,
  begin, written, expire, arrive, hand, finish, moved, begin_call, end_write, run_out, take_channel,
  pick, meet, return, step, run,
}

-- A call that is past its `select`.
abbrev pub is_over : Option (ℕ × Phase) → Bool
is_over none = false
is_over (some (key, writing)) = false
is_over (some (key, waiting)) = false
is_over (some (key, leaving r)) = true
is_over (some (key, returned r)) = true

-- How many goroutines send on the channel of a call.
unfoldable pub senders : ℕ → List Handing → ℕ
senders id [] = 0
senders id (h ∷ hs) = let n = senders id hs in if h.call == id then n + 1 else n

abbrev Stays : ℕ → Calls → Calls → Type 0
Stays id s t = (is_over (lookup id t.calls) ≡ true) × (senders id s.handing ≤ senders id t.handing)

along_same :
    (id : ℕ) (s t u : Calls)
    → ◌≡◌ {A = Option Calls} (some u) (some t)
    → Stays id s u
    → Stays id s t
along_same id s t u e f = let e' : u ≡ t = ground (arith, e) in rw (sym e') f

moved-Stays :
    (s : Calls) (id key : ℕ) (phase phase' : Phase) (j : ℕ)
    → lookup id s.calls ≡ some (key, phase)
    → (is_over (some (key, phase)) ≡ false) ⊎ (is_over (some (key, phase')) ≡ true)
    → is_over (lookup j s.calls) ≡ true
    → Stays j s (moved s id key phase')
moved-Stays s id key phase phase' j h (inl early) v =
    (ground (arith, h, early, v, lookup-insert id j (key, phase') s.calls), omega arith)
moved-Stays s id key phase phase' j h (inr late) v =
    (ground (arith, h, late, v, lookup-insert id j (key, phase') s.calls), omega arith)

senders-append :
    (id : ℕ) (hs ks : List Handing) → senders id (hs ++ ks) ≡ senders id hs + senders id ks
unfolding senders
senders-append id [] ks = omega arith
senders-append id (h ∷ hs) ks = ground (arith, senders-append id hs ks)

senders-pick :
    (j id : ℕ) (hs rest : List Handing) (h : Handing)
    → pick id hs ≡ some (h, rest)
    → (j == id) ≡ false
    → senders j rest ≡ senders j hs
unfolding pick senders
senders-pick j id [] rest h e d = absurd (ground (arith, e))
senders-pick j id (x ∷ hs) rest h e d = elim (Bool-cases (x.call == id)) [
  | inl first ↦ ground (arith, e, first, d)
  | inr other ↦ elim (Option-cases (pick id hs)) [
    | inl missing ↦ absurd (ground (arith, e, other, missing))
    | inr ((y, ys), there) ↦ ground (arith, e, other, there, d, senders-pick j id hs ys y there d)
  ]
]

end_write-Stays :
    (s t : Calls) (id : ℕ) (sent : Bool) (c : Option (ℕ × Phase)) (j : ℕ)
    → lookup id s.calls ≡ c
    → is_over (lookup j s.calls) ≡ true
    → end_write s id sent c ≡ some t
    → Stays j s t
unfolding end_write
end_write-Stays s t id true (some (key, writing)) j h v e =
    along_same j s t (moved s id key waiting) e
      (moved-Stays s id key writing waiting j h (inl refl) v)
end_write-Stays s t id false (some (key, writing)) j h v e =
    along_same j s t (moved s id key (leaving gone)) e
      (moved-Stays s id key writing (leaving gone) j h (inl refl) v)
end_write-Stays s t id sent none j h v e = absurd (ground (arith, e))
end_write-Stays s t id sent (some (key, waiting)) j h v e = absurd (ground (arith, e))
end_write-Stays s t id sent (some (key, leaving r)) j h v e = absurd (ground (arith, e))
end_write-Stays s t id sent (some (key, returned r)) j h v e = absurd (ground (arith, e))

run_out-Stays :
    (s t : Calls) (id : ℕ) (c : Option (ℕ × Phase)) (j : ℕ)
    → lookup id s.calls ≡ c
    → is_over (lookup j s.calls) ≡ true
    → run_out s id c ≡ some t
    → Stays j s t
unfolding run_out
run_out-Stays s t id (some (key, waiting)) j h v e =
    along_same j s t (moved s id key (leaving timed_out)) e
      (moved-Stays s id key waiting (leaving timed_out) j h (inl refl) v)
run_out-Stays s t id none j h v e = absurd (ground (arith, e))
run_out-Stays s t id (some (key, writing)) j h v e = absurd (ground (arith, e))
run_out-Stays s t id (some (key, leaving r)) j h v e = absurd (ground (arith, e))
run_out-Stays s t id (some (key, returned r)) j h v e = absurd (ground (arith, e))

return-Stays :
    (s t : Calls) (id : ℕ) (c : Option (ℕ × Phase)) (j : ℕ)
    → lookup id s.calls ≡ c
    → is_over (lookup j s.calls) ≡ true
    → return s id c ≡ some t
    → Stays j s t
unfolding return
return-Stays s t id (some (key, leaving r)) j h v e =
    along_same j s t (record (moved s id key (returned r)) { table = delete key s.table }) e
      (moved-Stays s id key (leaving r) (returned r) j h (inr refl) v)
return-Stays s t id none j h v e = absurd (ground (arith, e))
return-Stays s t id (some (key, writing)) j h v e = absurd (ground (arith, e))
return-Stays s t id (some (key, waiting)) j h v e = absurd (ground (arith, e))
return-Stays s t id (some (key, returned r)) j h v e = absurd (ground (arith, e))

begin_call-Stays :
    (s t : Calls) (id key : ℕ) (c : Option (ℕ × Phase)) (k : Option ℕ) (j : ℕ)
    → lookup id s.calls ≡ c
    → is_over (lookup j s.calls) ≡ true
    → begin_call s id key c k ≡ some t
    → Stays j s t
unfolding begin_call
begin_call-Stays s t id key none none j h v e =
    let u = record s { table = insert key id s.table; calls = insert id (key, writing) s.calls } in
    along_same j s t u e
      (ground (arith, h, v, lookup-insert id j (key, writing) s.calls), omega arith)
begin_call-Stays s t id key (some c) k j h v e = absurd (ground (arith, e))
begin_call-Stays s t id key none (some k) j h v e = absurd (ground (arith, e))

take_channel-Stays :
    (s : Calls) (key : ℕ) (reply : List ℕ) (k : Option ℕ) (j : ℕ)
    → is_over (lookup j s.calls) ≡ true
    → Stays j s (take_channel s key reply k)
unfolding take_channel
take_channel-Stays s key reply none j v = (v, omega arith)
take_channel-Stays s key reply (some id) j v =
    let new : List Handing = record { key = key; call = id; reply = reply } ∷ [] in
    (v, omega (arith, senders-append j s.handing new))

-- The call that waits is not the one that is over, so its goroutine is another.
met-Stays :
    (s : Calls) (id key : ℕ) (h : Handing) (rest : List Handing) (j : ℕ)
    → lookup id s.calls ≡ some (key, waiting)
    → pick id s.handing ≡ some (h, rest)
    → is_over (lookup j s.calls) ≡ true
    → Stays j s (record (moved s id key (leaving (replied h.reply))) { handing = rest })
met-Stays s id key h rest j there picked v =
    let other : (j == id) ≡ false = ground (arith, there, v) in
    let stays = moved-Stays s id key waiting (leaving (replied h.reply)) j there (inl refl) v in
    (stays.0, omega (arith, senders-pick j id s.handing rest h picked other))

meet-Stays :
    (s t : Calls) (id : ℕ) (c : Option (ℕ × Phase)) (p : Option (Handing × List Handing)) (j : ℕ)
    → lookup id s.calls ≡ c
    → pick id s.handing ≡ p
    → is_over (lookup j s.calls) ≡ true
    → meet s id c p ≡ some t
    → Stays j s t
unfolding meet
meet-Stays s t id (some (key, waiting)) (some (h, rest)) j there picked v e =
    along_same j s t (record (moved s id key (leaving (replied h.reply))) { handing = rest }) e
      (met-Stays s id key h rest j there picked v)
meet-Stays s t id none p j there picked v e = absurd (ground (arith, e))
meet-Stays s t id (some (key, writing)) p j there picked v e = absurd (ground (arith, e))
meet-Stays s t id (some (key, leaving r)) p j there picked v e = absurd (ground (arith, e))
meet-Stays s t id (some (key, returned r)) p j there picked v e = absurd (ground (arith, e))
meet-Stays s t id (some (key, waiting)) none j there picked v e = absurd (ground (arith, e))

step-Stays :
    (s t : Calls) (e : Event) (j : ℕ)
    → is_over (lookup j s.calls) ≡ true
    → step s e ≡ some t
    → Stays j s t
unfolding step
step-Stays s t (begin id key) j v h =
    begin_call-Stays s t id key (lookup id s.calls) (lookup key s.table) j refl v h
step-Stays s t (written id sent) j v h = end_write-Stays s t id sent (lookup id s.calls) j refl v h
step-Stays s t (expire id) j v h = run_out-Stays s t id (lookup id s.calls) j refl v h
step-Stays s t (arrive key reply) j v h =
    along_same j s t (take_channel s key reply (lookup key s.table)) h
      (take_channel-Stays s key reply (lookup key s.table) j v)
step-Stays s t (hand id) j v h =
    meet-Stays s t id (lookup id s.calls) (pick id s.handing) j refl refl v h
step-Stays s t (finish id) j v h = return-Stays s t id (lookup id s.calls) j refl v h

-- Once a call is past its `select`, every goroutine that sends on its channel keeps sending,
-- whatever happens: the call stays past it, and there are never fewer of them.
pub handler_stuck :
    (s t : Calls) (es : List Event) (id : ℕ)
    → is_over (lookup id s.calls) ≡ true
    → run s es ≡ some t
    → (is_over (lookup id t.calls) ≡ true) × (senders id s.handing ≤ senders id t.handing)
unfolding run
handler_stuck s t [] id v h = let same : s ≡ t = ground (arith, h) in rw (sym same) (v, omega arith)
handler_stuck s t (e ∷ es) id v h = elim (Option-cases (step s e)) [
  | inl stuck ↦ absurd (ground (arith, h, stuck))
  | inr (u, stepped) ↦
      let (over, kept) = step-Stays s u e id v stepped in
      let (over', kept') = handler_stuck u t es id over (ground (arith, h, stepped)) in
      (over', omega (arith, kept, kept'))
]
