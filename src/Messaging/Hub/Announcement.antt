-- ===== src/Messaging/Hub/Announcement.antt =====
-- messaging/channel.go: what `Announce` does to the streams of the peers.
use t.Prelude.{
  ℕ, ◌≡◌, refl, ap, ◌∙◌, Option, none, some, Option-cases, inl, inr, ◌⊎◌, List, [], ◌∷◌, ok, err,
  lookup, insert, lookup-insert, arith,
}
use t.Messaging.Message.{Message}
use t.Messaging.Hub.{MessageChannel, send, Hub, write, send_all, announce}

unfoldable pub send_to : Message → Option MessageChannel → Option MessageChannel
send_to m none = none
send_to m (some c) = some (send m c)

pub lookup-send_all :
    (m : Message) (h : Hub) (peer : ℕ) → lookup peer (send_all m h) ≡ send_to m (lookup peer h)
unfolding lookup send_all send_to
lookup-send_all m [] peer = refl
lookup-send_all m ((k, c) ∷ h) peer = ground (arith, lookup-send_all m h peer)

-- An announcement does to every peer's stream what a write to that peer does, a peer without a
-- stream has none after it either, and it brings no other change.
pub announce-write :
    (self kind : ℕ) (b : List ℕ) (h : Hub) (peer : ℕ)
    → let m : Message = record { kind = kind; from = self; payload = b } in
      ((write peer m h ≡ err tt) × (lookup peer (announce self kind b h) ≡ none))
      ⊎ ((written : Hub) × (write peer m h ≡ ok written)
          × (lookup peer (announce self kind b h) ≡ lookup peer written))
unfolding write announce send_to
announce-write self kind b h peer = elim (Option-cases (lookup peer h)) [
  | inl missing ↦ inl (
    ground (arith, missing),
    lookup-send_all (record { kind = kind; from = self; payload = b }) h peer
        ∙ ap (send_to (record { kind = kind; from = self; payload = b })) missing,
  )
  | inr (c, there) ↦
      let m : Message = record { kind = kind; from = self; payload = b } in
      inr (
        insert peer (send m c) h,
        ground (arith, there),
        ground (arith, lookup-send_all m h peer, there, lookup-insert peer peer (send m c) h),
      )
]
