-- ===== src/Server/Events/Streams.antt =====
-- server/peers.go against messaging/channel.go: the messaging streams of a node, over all that happens to
-- its table of them. Each event is one action on the table; a panic ends the process.
use t.Prelude.{ℕ, Bool, Option, none, some, List, [], ◌∷◌, Outcome, ok, err, panic, ◌>>=◌}
use t.Multiplexer.Link.{Link}
use t.State.ConnectedClients.{Filter}
use t.Messaging.Message.{Message}
use t.Messaging.Hub.{Hub, register, forget, write, announce}
use t.Server.Routing.{Router}
use t.Server.Events.{Handled, messaging, forwarded, handle_stream, messaging_stream}

-- `registered` is a session that `handlePeerEvents` learns of, with the flag `Initiator` and what
-- `Messaging` comes to; `streamed` is a stream that a peer opens, at the state of the node then;
-- `ended` is the end of a messaging stream; `wrote` and `announced` are `write` and `Announce`.
pub data Event (P F T : Type 0) : Type 0 where
  registered : ℕ → Bool → Outcome F T → Event P F T
  streamed : Router P → ℕ → Link → Event P F T
  ended : ℕ → Event P F T
  wrote : ℕ → Message → Event P F T
  announced : ℕ → List ℕ → Event P F T

-- `openMessaging` for a stream, if there is one.
abbrev pub open_messaging : {T : Type 0} → ℕ → Hub → Option T → Outcome (Unit {0}) Hub
open_messaging peer h none = ok h
open_messaging peer h (some t) = register peer h

-- A forwarded stream leaves the table as it is.
abbrev pub take_stream : {P : Type 0} → ℕ → Hub → Handled P → Outcome (Unit {0}) Hub
take_stream peer h messaging = register peer h
take_stream peer h (forwarded f) = ok h

-- An error of `write` leaves the table as it is.
abbrev pub after_write : Hub → Outcome (Unit {0}) Hub → Outcome (Unit {0}) Hub
after_write h (ok h') = ok h'
after_write h (err e) = ok h
after_write h panic = panic

module _ {E F P T : Type 0} (contains : Filter → ℕ → Bool)
    (bidirectional : P → Link → Outcome E (Unit {0})) (self : ℕ) where
  unfoldable pub step : Hub → Event P F T → Outcome (Unit {0}) Hub
  unfolding register forget write announce handle_stream messaging_stream
  step h (registered peer initiator opened) =
      open_messaging peer h (messaging_stream initiator opened)
  step h (streamed s peer link) = take_stream peer h (handle_stream contains bidirectional s link)
  step h (ended peer) = ok (forget peer h).0
  step h (wrote peer m) = after_write h (write peer m h)
  step h (announced kind b) = ok (announce self kind b h)

  unfoldable pub run : Hub → List (Event P F T) → Outcome (Unit {0}) Hub
  unfolding step
  run h [] = ok h
  run h (e ∷ es) = step h e >>= λ h'. run h' es
