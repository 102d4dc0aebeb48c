-- ===== src/Messaging/Hub.antt =====
-- messaging/channel.go: the table of messaging streams, and the channel `out` of each. A sender that
-- finds the channel full waits.
pub mod Announcement
use t.Prelude.{
  ℕ, ◌+◌, Bool, true, false, Option, none, some, List, [], ◌∷◌, ◌++◌, Outcome, ok, err, panic,
  length, ltb, if◌then◌else◌, Map, lookup, insert, delete,
}
use t.Messaging.Message.{Message}

-- `messageChannel`, as far as its senders go: `out`, and the messages of those that wait.
pub record MessageChannel : Type 0 where
  pub out : List Message
  pub waiting : List Message

abbrev pub out_capacity : ℕ
out_capacity = 16

abbrev pub fresh_channel : MessageChannel
fresh_channel = record { out = []; waiting = [] }

-- `comm.out <- m`
unfoldable pub send : Message → MessageChannel → MessageChannel
send m c =
    if ltb (length c.out) out_capacity
    then record c { out = c.out ++ m ∷ [] }
    else record c { waiting = c.waiting ++ m ∷ [] }

-- The streams by peer.
abbrev pub Hub : Type 0
Hub = Map MessageChannel

-- `Register`: a peer that has a stream already makes it panic.
unfoldable pub register : ℕ → Hub → Outcome (Unit {0}) Hub
register peer h = elim (lookup peer h) [ some c ↦ panic | none ↦ ok (insert peer fresh_channel h) ]

-- `forget`: the senders that wait on the closed channel panic, and their `write` recovers with
-- `ErrPeerGone`; they are the second result.
unfoldable pub forget : ℕ → Hub → Hub × List Message
forget peer h = elim (lookup peer h) [ some c ↦ (delete peer h, c.waiting) | none ↦ (h, []) ]

-- `write`; its error is `ErrPeerGone`.
unfoldable pub write : ℕ → Message → Hub → Outcome (Unit {0}) Hub
unfolding send
write peer m h = elim (lookup peer h) [ some c ↦ ok (insert peer (send m c) h) | none ↦ err tt ]

-- The writes of `Announce`, each in a goroutine of its own.
unfoldable pub send_all : Message → Hub → Hub
unfolding send
send_all m [] = []
send_all m ((peer, c) ∷ h) = (peer, send m c) ∷ send_all m h

unfoldable pub announce : ℕ → ℕ → List ℕ → Hub → Hub
unfolding send_all
announce self kind b h = send_all (record { kind = kind; from = self; payload = b }) h
