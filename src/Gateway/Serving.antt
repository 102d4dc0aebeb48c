-- ===== src/Gateway/Serving.antt =====
-- gateway/alpn.go: the goroutine of `Serve`, those of `handshake`, and the listeners that `For` gives
-- out. An event is one atomic action, and an action that would wait is no step.
pub mod Queues
pub mod Moves
pub mod Safety
mod Runs
use t.Prelude.{
  ℕ, zero, suc, ◌+◌, Bool, true, false, ◌&&◌, ◌||◌, Option, none, some, List, [], ◌∷◌, ◌++◌, length,
  same, ltb, ◌==◌, if◌then◌else◌,
}
use t.Gateway.{listen_for, listener}

-- Where `Serve` stands: at the test of its context, in `Accept`, or returned, with `done` closed.
pub data Serving : Type 0 where
  testing : Serving
  accepting : Serving
  returned : Serving

-- A connection that agreed on a protocol, with the channel that was found for it.
pub record Delivery : Type 0 where
  pub channel : ℕ
  pub proto : List ℕ
  pub conn : ℕ

-- `handshaking` is the connections in `HandshakeContext`, `sending` those whose `handshake` is about
-- to send, `queued` what the buffered channels hold, all of them in one list. `made` is how many
-- channels `For` has made, `stopped` says that the process has ended. `arrived`, `sent`, `given` and
-- `closed` are records of ours: what the listener gave to `Serve`, what was sent to a channel, what
-- the listeners gave out, and what was closed.
pub record Mux : Type 0 where
  pub table : List (List ℕ × ℕ)
  pub made : ℕ
  pub serving : Serving
  pub cancelled : Bool
  pub stopped : Bool
  pub handshaking : List ℕ
  pub sending : List Delivery
  pub queued : List Delivery
  pub arrived : List ℕ
  pub sent : List Delivery
  pub given : List Delivery
  pub closed : List ℕ

-- `agree` and `fail` are the two ends of the n-th handshake, `send` is the n-th send, `accept` and
-- `see_done` are the two cases in `Accept` of the listener of a channel.
pub data Event : Type 0 where
  listen : List (List ℕ) → Event
  cancel : Event
  test_context : Event
  arrive : ℕ → Bool → Event
  refuse : Event
  agree : ℕ → List ℕ → Event
  fail : ℕ → Event
  send : ℕ → Event
  accept : ℕ → Event
  see_done : Event

abbrev pub channel_capacity : ℕ
channel_capacity = 32

-- `NewALPNMux`
unfoldable pub new_mux : Mux
new_mux = record {
  table = [];
  made = 0;
  serving = testing;
  cancelled = false;
  stopped = false;
  handshaking = [];
  sending = [];
  queued = [];
  arrived = [];
  sent = [];
  given = [];
  closed = [];
}

module _ {ℓ} {A : Type ℓ} where
  unfoldable with_head : A → Option (A × List A) → Option (A × List A)
  with_head x none = none
  with_head x (some (y, ys)) = some (y, x ∷ ys)

  -- The n-th of a list, and the others.
  unfoldable pub pick : ℕ → List A → Option (A × List A)
  unfolding with_head
  pick n [] = none
  pick zero (x ∷ xs) = some (x, xs)
  pick (suc n) (x ∷ xs) = with_head x (pick n xs)

-- What goes to one channel.
unfoldable pub of_channel : ℕ → List Delivery → List Delivery
of_channel ch [] = []
of_channel ch (d ∷ ds) = let rest = of_channel ch ds in if d.channel == ch then d ∷ rest else rest

-- The first for a channel, and the others.
unfoldable pub take_first : ℕ → List Delivery → Option (Delivery × List Delivery)
unfolding with_head
take_first ch [] = none
take_first ch (d ∷ ds) =
    let rest = take_first ch ds in if d.channel == ch then some (d, ds) else with_head d rest

-- The top of the loop of `Serve`.
test_done : Mux → Serving → Option Mux
test_done m testing = some (record m { serving = if m.cancelled then returned else accepting })
test_done m _ = none

-- `Accept` gave a connection; one that is not of TLS is fatal.
take_conn : Mux → Serving → ℕ → Bool → Option Mux
take_conn m accepting c true =
    some (record m { serving = testing; handshaking = c ∷ m.handshaking; arrived = c ∷ m.arrived })
take_conn m accepting c false = some (record m { stopped = true })
take_conn m _ c tls = none

accept_fails : Mux → Serving → Option Mux
accept_fails m accepting = some (record m { serving = returned })
accept_fails m _ = none

close_conn : Mux → Option (ℕ × List ℕ) → Option Mux
close_conn m none = none
close_conn m (some (c, rest)) = some (record m { handshaking = rest; closed = c ∷ m.closed })

-- What `handshake` does with a connection for which this channel was found, up to the send.
dispatch : Mux → ℕ → List ℕ → List ℕ → Option ℕ → Option Mux
dispatch m c rest proto none = some (record m { handshaking = rest; closed = c ∷ m.closed })
dispatch m c rest proto (some ch) = some (record m {
  handshaking = rest;
  sending = record { channel = ch; proto = proto; conn = c } ∷ m.sending;
})

-- `handshake`, once TLS has agreed.
find_channel : Mux → List ℕ → Option (ℕ × List ℕ) → Option Mux
unfolding dispatch
find_channel m proto none = none
find_channel m proto (some (c, rest)) = dispatch m c rest proto (listener m.table proto)

send_conn : Mux → Option (Delivery × List Delivery) → Option Mux
send_conn m none = none
send_conn m (some (d, rest)) =
    if ltb (length (of_channel d.channel m.queued)) channel_capacity
    then some (record m { sending = rest; queued = m.queued ++ d ∷ []; sent = m.sent ++ d ∷ [] })
    else none

give_conn : Mux → Option (Delivery × List Delivery) → Option Mux
give_conn m none = none
give_conn m (some (d, rest)) = some (record m { queued = rest; given = m.given ++ d ∷ [] })

closed_listener : Mux → Serving → Option Mux
closed_listener m returned = some m
closed_listener m _ = none

act : Mux → Event → Option Mux
unfolding test_done take_conn accept_fails close_conn find_channel send_conn give_conn
    closed_listener
act m (listen protos) =
    some (record m { table = listen_for m.made protos m.table; made = m.made + 1 })
act m cancel = some (record m { cancelled = true })
act m test_context = test_done m m.serving
act m (arrive c tls) = take_conn m m.serving c tls
act m refuse = accept_fails m m.serving
act m (agree n proto) = find_channel m proto (pick n m.handshaking)
act m (fail n) = close_conn m (pick n m.handshaking)
act m (send n) = send_conn m (pick n m.sending)
act m (accept ch) = give_conn m (take_first ch m.queued)
act m see_done = closed_listener m m.serving

-- Nothing happens once the process has ended.
unfoldable pub step : Mux → Event → Option Mux
unfolding act
step m e = if m.stopped then none else act m e

-- Nothing is known of a run in which an event is no step.
unfoldable pub run : Mux → List Event → Option Mux
unfolding step
run m [] = some m
run m (e ∷ es) = elim (step m e) [ none ↦ none | some n ↦ run n es ]
