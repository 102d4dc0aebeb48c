-- ===== src/Gateway/Serving/Safety.antt =====
-- gateway/alpn.go: where a connection is between the listener of the mux and the listeners of `For`.
use t.Prelude.{
  ℕ, ◌+◌, ◌≤◌, ◌≡◌, refl, Bool, true, false, Option, none, some, Option-cases, Bool-cases, List, [],
  ◌∷◌, ◌++◌, All, length, ltb, inl, inr, arith,
}
use mathlib.Core.Path.{subst}
use t.Gateway.{listener}
use t.Gateway.Serving.{
  Serving, testing, accepting, returned, Delivery, Mux, Event, listen, cancel, test_context, arrive,
  refuse, agree, fail, send, accept, see_done, channel_capacity, new_mux, pick, of_channel,
  take_first, test_done, take_conn, accept_fails, close_conn, dispatch, find_channel, send_conn,
  give_conn, closed_listener, act, step, run,
}
use t.Gateway.Serving.Queues.{count, carried, HasListener}
use t.Gateway.Serving.Moves.{
  IsServing, listen-IsServing, arrive-IsServing, close-IsServing, agree-IsServing, send-IsServing,
  give-IsServing, moved-IsServing, new_mux-IsServing,
}

-- The state after a step, if there is one, is kept.
abbrev StaysServing : Option Mux → Type 0
StaysServing none = Unit
StaysServing (some m) = IsServing m

test_done-StaysServing : (m : Mux) (s : Serving) → IsServing m → StaysServing (test_done m s)
unfolding test_done
test_done-StaysServing m testing v = moved-IsServing m _ m.cancelled m.stopped v
test_done-StaysServing m accepting v = tt
test_done-StaysServing m returned v = tt

take_conn-StaysServing :
    (m : Mux) (s : Serving) (c : ℕ) (tls : Bool) → IsServing m → StaysServing (take_conn m s c tls)
unfolding take_conn
take_conn-StaysServing m testing c tls v = tt
take_conn-StaysServing m accepting c true v = arrive-IsServing m c testing v
take_conn-StaysServing m accepting c false v = moved-IsServing m m.serving m.cancelled true v
take_conn-StaysServing m returned c tls v = tt

accept_fails-StaysServing : (m : Mux) (s : Serving) → IsServing m → StaysServing (accept_fails m s)
unfolding accept_fails
accept_fails-StaysServing m testing v = tt
accept_fails-StaysServing m accepting v = moved-IsServing m returned m.cancelled m.stopped v
accept_fails-StaysServing m returned v = tt

closed_listener-StaysServing :
    (m : Mux) (s : Serving) → IsServing m → StaysServing (closed_listener m s)
unfolding closed_listener
closed_listener-StaysServing m testing v = tt
closed_listener-StaysServing m accepting v = tt
closed_listener-StaysServing m returned v = v

close_conn-StaysServing :
    (m : Mux) (n : ℕ) (o : Option (ℕ × List ℕ))
    → pick n m.handshaking ≡ o
    → IsServing m
    → StaysServing (close_conn m o)
unfolding close_conn
close_conn-StaysServing m n none h v = tt
close_conn-StaysServing m n (some (c, rest)) h v = close-IsServing m n c rest h v

dispatch-StaysServing :
    (m : Mux) (n c : ℕ) (rest proto : List ℕ) (o : Option ℕ)
    → pick n m.handshaking ≡ some (c, rest)
    → listener m.table proto ≡ o
    → IsServing m
    → StaysServing (dispatch m c rest proto o)
unfolding dispatch
dispatch-StaysServing m n c rest proto none h found v = close-IsServing m n c rest h v
dispatch-StaysServing m n c rest proto (some ch) h found v =
    agree-IsServing m n c ch proto rest h found v

find_channel-StaysServing :
    (m : Mux) (n : ℕ) (proto : List ℕ) (o : Option (ℕ × List ℕ))
    → pick n m.handshaking ≡ o
    → IsServing m
    → StaysServing (find_channel m proto o)
unfolding find_channel
find_channel-StaysServing m n proto none h v = tt
find_channel-StaysServing m n proto (some (c, rest)) h v =
    dispatch-StaysServing m n c rest proto (listener m.table proto) h refl v

send_conn-StaysServing :
    (m : Mux) (n : ℕ) (o : Option (Delivery × List Delivery))
    → pick n m.sending ≡ o
    → IsServing m
    → StaysServing (send_conn m o)
unfolding send_conn
send_conn-StaysServing m n none h v = tt
send_conn-StaysServing m n (some (d, rest)) h v =
    elim (Bool-cases (ltb (length (of_channel d.channel m.queued)) channel_capacity)) [
      | inl room ↦ rw room (send-IsServing m n d rest h (ground (arith, room)) v)
      | inr full ↦ rw full tt
    ]

give_conn-StaysServing :
    (m : Mux) (ch : ℕ) (o : Option (Delivery × List Delivery))
    → take_first ch m.queued ≡ o
    → IsServing m
    → StaysServing (give_conn m o)
unfolding give_conn
give_conn-StaysServing m ch none h v = tt
give_conn-StaysServing m ch (some (d, rest)) h v = give-IsServing m ch d rest h v

act-StaysServing : (m : Mux) (e : Event) → IsServing m → StaysServing (act m e)
unfolding act
act-StaysServing m (listen protos) v = listen-IsServing m protos v
act-StaysServing m cancel v = moved-IsServing m m.serving true m.stopped v
act-StaysServing m test_context v = test_done-StaysServing m m.serving v
act-StaysServing m (arrive c tls) v = take_conn-StaysServing m m.serving c tls v
act-StaysServing m refuse v = accept_fails-StaysServing m m.serving v
act-StaysServing m (agree n proto) v =
    find_channel-StaysServing m n proto (pick n m.handshaking) refl v
act-StaysServing m (fail n) v = close_conn-StaysServing m n (pick n m.handshaking) refl v
act-StaysServing m (send n) v = send_conn-StaysServing m n (pick n m.sending) refl v
act-StaysServing m (accept ch) v = give_conn-StaysServing m ch (take_first ch m.queued) refl v
act-StaysServing m see_done v = closed_listener-StaysServing m m.serving v

step-IsServing : (m n : Mux) (e : Event) → step m e ≡ some n → IsServing m → IsServing n
unfolding step
step-IsServing m n e h v = elim (Bool-cases m.stopped) [
  | inl ended ↦ ground (arith, ended, h)
  | inr going ↦
      let acted : act m e ≡ some n = ground (arith, going, h) in
      subst StaysServing acted (act-StaysServing m e v)
]

run-IsServing : (m n : Mux) (es : List Event) → run m es ≡ some n → IsServing m → IsServing n
unfolding run
run-IsServing m n [] h v = subst StaysServing h v
run-IsServing m n (e ∷ es) h v = elim (Option-cases (step m e)) [
  | inl stop ↦ ground (arith, stop, h)
  | inr (k, go) ↦ run-IsServing k n es (ground (arith, go, h)) (step-IsServing m k e go v)
]

-- From a new mux, however `Serve`, `For`, the handshakes, their sends and the listeners interleave:
-- every connection that the listener gave to `Serve` is in exactly one place, in its handshake,
-- about to be sent, in a channel, given out by a listener, or closed; what goes through each channel
-- comes out in the order in which it was sent, and at most 32 wait there; and each connection that a
-- listener gave out had agreed on one of the protocols that `For` was called with for that channel.
pub serving_safe :
    (m : Mux) (es : List Event)
    → run new_mux es ≡ some m
    → ((x : ℕ)
        → count x m.arrived
          ≡ count x m.handshaking
            + carried x m.sending
            + carried x m.queued
            + carried x m.given
            + count x m.closed)
      × ((ch : ℕ)
          → (of_channel ch m.given ++ of_channel ch m.queued ≡ of_channel ch m.sent)
            × (length (of_channel ch m.queued) ≤ channel_capacity))
      × All (HasListener m.table) m.given
serving_safe m es h =
    let v = run-IsServing new_mux m es h new_mux-IsServing in
    (v.balanced, (λ ch. (v.ordered ch, v.bounded ch)), v.heard_given)
