-- ===== src/Multiplexer/Channel.antt =====
-- multiplexer/channel.go: the channel that hands the accepted streams of a session to the goroutine
-- that forwards them. `Put`, `Close` and `Run` may be called by any number of goroutines; an event
-- is one atomic action, and an action that would wait is no step.
pub mod Delivery
mod Runs
use t.Prelude.{
  ℕ, zero, suc, ◌+◌, Bool, true, false, not, ◌&&◌, Option, none, some, List, [], ◌∷◌, ◌++◌, length,
  ltb, if◌then◌else◌,
}

-- Where `Run` stands: not called, in its `select`, sending a stream to `outgoing`, about to test
-- `chClosed`, about to close `outgoing`, or returned.
pub data Running {ℓ} (A : Type ℓ) : Type ℓ where
  idle : Running A
  selecting : Running A
  forwarding : A → Running A
  leaving : Running A
  shutting : Running A
  ended : Running A

-- `outgoing` is what the buffered channel holds. The flags `closed`, `ch_closed` and `started` are
-- the atomics; `closing` is how many calls of `Close` have won their flag and not yet closed
-- `closer`; `cancelled` says that the context is done. `panicked` says that something was sent on a
-- closed channel, or that a channel was closed twice. `received` is a record of ours: what
-- the consumer has taken so far.
pub record Channel {ℓ} (A : Type ℓ) : Type ℓ where
  pub outgoing : List A
  pub outgoing_closed : Bool
  pub closer_closed : Bool
  pub closed : Bool
  pub ch_closed : Bool
  pub started : Bool
  pub cancelled : Bool
  pub closing : ℕ
  pub running : Running A
  pub panicked : Bool
  pub received : List A

-- `put x` is the meeting of a `Put(x)` with the `select`; `forward` is the send to `outgoing`;
-- `receive` is the consumer's. `call_close` is the flag of `Close`, `close_closer` its close.
-- `see_done` and `see_closer` are the two other cases of the `select`, and `test_closed` and
-- `close_outgoing` the two actions of `closeChannel`.
pub data Event {ℓ} (A : Type ℓ) : Type ℓ where
  call_run : Event A
  put : A → Event A
  forward : Event A
  receive : Event A
  call_close : Event A
  close_closer : Event A
  cancel : Event A
  see_done : Event A
  see_closer : Event A
  test_closed : Event A
  close_outgoing : Event A

abbrev pub outgoing_capacity : ℕ
outgoing_capacity = 32

module _ {ℓ} {A : Type ℓ} where
  -- `NewChannel`
  unfoldable pub new_channel : Channel A
  new_channel = record {
    outgoing = [];
    outgoing_closed = false;
    closer_closed = false;
    closed = false;
    ch_closed = false;
    started = false;
    cancelled = false;
    closing = 0;
    running = idle;
    panicked = false;
    received = [];
  }

  -- Only the first call of `Run` gets past its flag.
  start_running : Channel A → Channel A
  start_running c = if c.started then c else record c { started = true; running = selecting }

  take_put : A → Channel A → Running A → Option (Channel A)
  take_put x c selecting = some (record c { running = forwarding x })
  take_put x c _ = none

  send_outgoing : Channel A → Running A → Option (Channel A)
  send_outgoing c (forwarding x) =
      if c.outgoing_closed
      then some (record c { panicked = true })
      else if ltb (length c.outgoing) outgoing_capacity
      then some (record c { outgoing = c.outgoing ++ x ∷ []; running = selecting })
      else none
  send_outgoing c _ = none

  -- A closed and empty channel gives the consumer nothing more.
  take_outgoing : Channel A → List A → Option (Channel A)
  take_outgoing c [] = if c.outgoing_closed then some c else none
  take_outgoing c (x ∷ xs) = some (record c { outgoing = xs; received = c.received ++ x ∷ [] })

  -- `Close`; its result is whether the flag was won.
  unfoldable pub close : Channel A → Channel A × Bool
  close c =
      if c.closed then (c, false) else (record c { closed = true; closing = c.closing + 1 }, true)

  -- `Close` with nothing in between.
  unfoldable pub close_whole : Channel A → Channel A × Bool
  close_whole c =
      if c.closed then (c, false) else (record c { closed = true; closer_closed = true }, true)

  finish_close : Channel A → ℕ → Option (Channel A)
  finish_close c zero = none
  finish_close c (suc n) =
      if c.closer_closed
      then some (record c { panicked = true })
      else some (record c { closer_closed = true; closing = n })

  leave : Channel A → Bool → Running A → Option (Channel A)
  leave c true selecting = some (record c { running = leaving })
  leave c _ _ = none

  -- `closeChannel`
  win_channel : Channel A → Running A → Option (Channel A)
  win_channel c leaving =
      if c.ch_closed
      then some (record c { running = ended })
      else some (record c { ch_closed = true; running = shutting })
  win_channel c _ = none

  shut_channel : Channel A → Running A → Option (Channel A)
  shut_channel c shutting =
      if c.outgoing_closed
      then some (record c { panicked = true })
      else some (record c { outgoing_closed = true; running = ended })
  shut_channel c _ = none

  unfoldable pub step : Channel A → Event A → Option (Channel A)
  unfolding start_running take_put send_outgoing take_outgoing close finish_close leave win_channel
      shut_channel
  step c call_run = some (start_running c)
  step c (put x) = take_put x c c.running
  step c forward = send_outgoing c c.running
  step c receive = take_outgoing c c.outgoing
  step c call_close = some (close c).0
  step c close_closer = finish_close c c.closing
  step c cancel = some (record c { cancelled = true })
  step c see_done = leave c c.cancelled c.running
  step c see_closer = leave c c.closer_closed c.running
  step c test_closed = win_channel c c.running
  step c close_outgoing = shut_channel c c.running

  -- Nothing is known of a run in which an event is no step.
  unfoldable pub run : Channel A → List (Event A) → Option (Channel A)
  unfolding step
  run c [] = some c
  run c (e ∷ es) = elim (step c e) [ none ↦ none | some d ↦ run d es ]
