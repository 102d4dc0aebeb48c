-- ===== src/Server/Events/Duplicates.antt =====
-- server/peers.go against messaging/channel.go: a peer that has two messaging streams.
use t.Prelude.{
  ℕ, ◌≡◌, ◌≢◌, refl, ap, ◌∙◌, ◌⊎◌, inl, inr, Bool, true, false, Option, none, some, Bool-cases,
  Option-cases, List, [], ◌∷◌, ◌++◌, Outcome, ok, err, panic, All, ◌==◌, lookup, insert,
  lookup-insert, lookup-delete, arith,
}
use t.Multiplexer.Link.{Link, messaging_link}
use t.State.ConnectedClients.{Filter}
use t.Messaging.Message.{Message}
use t.Messaging.Hub.{MessageChannel, fresh_channel, send, Hub, register, forget, write, announce}
use t.Messaging.Hub.Announcement.{send_to, lookup-send_all}
use t.Server.Events.{Handled, messaging, forwarded, handle_stream, same_link, messaging_stream}
use t.Server.Events.Streams.{
  Event, registered, streamed, ended, wrote, announced, open_messaging, take_stream, after_write,
  step, run,
}

-- The peer gets a messaging stream: the node opens one when it learns of a session that it did not
-- initiate, or the peer opens one with the link of a messaging stream.
abbrev pub Opens : {P F T : Type 0} → ℕ → Event P F T → Type 0
Opens peer (registered other false (ok t)) = other ≡ peer
Opens peer (streamed s other link) = (other ≡ peer) × (link ≡ messaging_link)
Opens peer _ = ⊥

-- The event does not end the messaging stream of the peer.
abbrev pub Spares : {P F T : Type 0} → ℕ → Event P F T → Type 0
Spares peer (ended other) = other ≢ peer
Spares peer _ = Unit

-- The peer has a messaging stream.
abbrev HasStream : ℕ → Hub → Type 0
HasStream peer h = (c : MessageChannel) × (lookup peer h ≡ some c)

register_again : (peer : ℕ) (h : Hub) → HasStream peer h → register peer h ≡ panic
unfolding register
register_again peer h (c, held) = ground (arith, held)

register_cases :
    (peer : ℕ) (h : Hub)
    → (register peer h ≡ panic) ⊎ (register peer h ≡ ok (insert peer fresh_channel h))
unfolding register
register_cases peer h = elim (Option-cases (lookup peer h)) [
  | inl missing ↦ inr (ground (arith, missing))
  | inr (c, held) ↦ inl (ground (arith, held))
]

insert-HasStream :
    (peer other : ℕ) (c : MessageChannel) (h : Hub)
    → HasStream peer h
    → HasStream peer (insert other c h)
insert-HasStream peer other c h (d, held) = elim (Bool-cases (other == peer)) [
  | inl same ↦ (c, ground (arith, same, lookup-insert other peer c h))
  | inr apart ↦ (d, ground (arith, apart, held, lookup-insert other peer c h))
]

-- What an event that keeps the stream of a peer comes to: a panic, or a table in which it still is.
abbrev Stays : ℕ → Outcome (Unit {0}) Hub → Type 0
Stays peer o = (o ≡ panic) ⊎ ((h : Hub) × (o ≡ ok h) × HasStream peer h)

register-Stays : (peer other : ℕ) (h : Hub) → HasStream peer h → Stays peer (register other h)
register-Stays peer other h v = elim (register_cases other h) [
  | inl e ↦ inl e
  | inr e ↦ inr (insert other fresh_channel h, e, insert-HasStream peer other fresh_channel h v)
]

open_messaging-Stays :
    {T : Type 0} (peer other : ℕ) (h : Hub) (o : Option T)
    → HasStream peer h
    → Stays peer (open_messaging other h o)
open_messaging-Stays peer other h none v = inr (h, refl, v)
open_messaging-Stays peer other h (some t) v = register-Stays peer other h v

take_stream-Stays :
    {P : Type 0} (peer other : ℕ) (h : Hub) (x : Handled P)
    → HasStream peer h
    → Stays peer (take_stream other h x)
take_stream-Stays peer other h messaging v = register-Stays peer other h v
take_stream-Stays peer other h (forwarded f) v = inr (h, refl, v)

forget-HasStream :
    (peer other : ℕ) (h : Hub) → other ≢ peer → HasStream peer h → HasStream peer (forget other h).0
unfolding forget
forget-HasStream peer other h apart (c, held) = elim (Option-cases (lookup other h)) [
  | inl missing ↦ (c, ground (arith, missing, held))
  | inr (d, there) ↦ (c, ground (arith, there, held, apart, lookup-delete other peer h))
]

write-Stays :
    (peer other : ℕ) (m : Message) (h : Hub)
    → HasStream peer h
    → Stays peer (after_write h (write other m h))
unfolding write
write-Stays peer other m h v = elim (Option-cases (lookup other h)) [
  | inl missing ↦ inr (h, ground (arith, missing), v)
  | inr (c, there) ↦
      inr (
        insert other (send m c) h,
        ground (arith, there),
        insert-HasStream peer other (send m c) h v,
      )
]

announce-HasStream :
    (self kind peer : ℕ) (b : List ℕ) (h : Hub)
    → HasStream peer h
    → HasStream peer (announce self kind b h)
unfolding announce send_to
announce-HasStream self kind peer b h (c, held) =
    let m : Message = record { kind = kind; from = self; payload = b } in
    (send m c, lookup-send_all m h peer ∙ ap (send_to m) held)

module _ {E F P T : Type 0} (contains : Filter → ℕ → Bool)
    (bidirectional : P → Link → Outcome E (Unit {0})) (self peer : ℕ) where
  abbrev next : Hub → Event P F T → Outcome (Unit {0}) Hub
  next h e = step contains bidirectional self h e

  step-register : (h : Hub) (e : Event P F T) → Opens peer e → next h e ≡ register peer h
  unfolding step handle_stream same_link messaging_stream
  step-register h (registered other false (ok t)) same = ground (arith, same)
  step-register h (streamed s other link) (same, link_same) = ground (arith, same, link_same)
  step-register h (registered other true o) v = absurd v
  step-register h (registered other false (err e)) v = absurd v
  step-register h (registered other false panic) v = absurd v
  step-register h (ended other) v = absurd v
  step-register h (wrote other m) v = absurd v
  step-register h (announced kind b) v = absurd v

  step-Stays :
      (h : Hub) (e : Event P F T) → Spares peer e → HasStream peer h → Stays peer (next h e)
  unfolding step
  step-Stays h (registered other i o) k v =
      open_messaging-Stays peer other h (messaging_stream i o) v
  step-Stays h (streamed s other link) k v =
      take_stream-Stays peer other h (handle_stream contains bidirectional s link) v
  step-Stays h (ended other) k v = inr ((forget other h).0, refl, forget-HasStream peer other h k v)
  step-Stays h (wrote other m) k v = write-Stays peer other m h v
  step-Stays h (announced kind b) k v =
      inr (announce self kind b h, refl, announce-HasStream self kind peer b h v)

  run_second :
      (h : Hub) (es : List (Event P F T)) (second : Event P F T)
      → HasStream peer h
      → All (Spares peer) es
      → Opens peer second
      → run contains bidirectional self h (es ++ second ∷ []) ≡ panic
  unfolding run
  run_second h [] second v k o = rw (step-register h second o, register_again peer h v) refl
  run_second h (e ∷ es) second v (k, ks) o = elim (step-Stays h e k v) [
    | inl crash ↦ rw crash refl
    | inr (g, went, w) ↦ rw went (run_second g es second w ks o)
  ]

  -- From any table of messaging streams, a peer gets a messaging stream twice, whichever of the two
  -- nodes opens each, and in between anything happens to the streams, of this peer and others, but
  -- that the stream of this peer ends: then a registration panics, and with it the node.
  pub second_stream_panics :
      (h : Hub) (first second : Event P F T) (es : List (Event P F T))
      → Opens peer first
      → All (Spares peer) es
      → Opens peer second
      → run contains bidirectional self h (first ∷ (es ++ second ∷ [])) ≡ panic
  unfolding run
  second_stream_panics h first second es o ks o' = elim (register_cases peer h) [
    | inl crash ↦ rw (step-register h first o, crash) refl
    | inr went ↦
        let h' = insert peer fresh_channel h in
        let held : HasStream peer h' =
          (fresh_channel, ground (arith, lookup-insert peer peer fresh_channel h)) in
        rw (step-register h first o, went) (run_second h' es second held ks o')
  ]
