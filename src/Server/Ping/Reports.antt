-- ===== src/Server/Ping/Reports.antt =====
-- server/gossip.go against server/server.go: a ping of a node that has just been asked.
use t.Prelude.{
  ℕ, ◌<◌, ◌^◌, ◌≡◌, ◌∙◌, ap, String, Option, some, List, [], ◌∷◌, ok, panic, length, arith,
}
use t.Bytes.{IsU64, put_uint64, word, word-put_uint64, slice}
use t.State.PeerMap.{len}
use t.State.PeerMap.Counter.{IsCounted}
use t.Server.Meta.{blank, marshal, unmarshal}
use t.Server.Meta.RoundTrip.{IsMeta, meta_roundtrip}
use t.Server.Routing.{Router}
use t.Server.Ping.{ack_payload, notify_ping_complete}
use t.Server.Meta.{Meta}

-- A payload of fewer than eight bytes, in a ping of a node whose description is read, is a panic.
notify_ping_complete-short :
    (show_ip : List ℕ → String) (meta payload : List ℕ) (m : Meta)
    → unmarshal show_ip blank meta ≡ ok m
    → length payload < 8
    → notify_ping_complete show_ip meta payload ≡ panic
unfolding notify_ping_complete
notify_ping_complete-short show_ip meta payload m read short = rw read (ground (arith, short))

-- A node whose address is parsed into sixteen bytes, the last four of which are shown as it was written,
-- whose description fits, and whose counter of peers is right: another node that its answer to
-- a ping reaches notes its identifier and the number of its sessions with peers, which is below 2^64;
-- and an answer of fewer than eight bytes instead is a panic there.
pub ping_reports :
    {P : Type 0} (parse_ip : String → Option (List ℕ)) (show_ip : List ℕ → String) (m : Meta)
    (s : Router P) (ip : List ℕ) (a b c d : ℕ) (payload : List ℕ)
    → IsMeta m
    → parse_ip m.connect_ip ≡ some ip
    → slice ip 12 16 ≡ a ∷ b ∷ c ∷ d ∷ []
    → show_ip (a ∷ b ∷ c ∷ d ∷ []) ≡ m.connect_ip
    → IsCounted s.peers
    → length s.peers.peers < 2 ^ 64
    → length payload < 8
    → (buf : List ℕ) × (marshal parse_ip m ≡ ok buf)
      × (notify_ping_complete show_ip buf (ack_payload s) ≡ ok (m.peer_id, length s.peers.peers))
      × (notify_ping_complete show_ip buf payload ≡ panic)
unfolding notify_ping_complete ack_payload len word put_uint64
ping_reports parse_ip show_ip m s ip a b c d payload v parsed four shown counted few short =
    let (buf, made, read) =
      meta_roundtrip parse_ip show_ip m blank v ip a b c d parsed four shown in
    let number : s.peers.num ≡ length s.peers.peers = omega (arith, counted.counted) in
    let fits : IsU64 s.peers.num = omega (arith, number) in
    (
      buf,
      made,
      rw read (ap (λ (n : ℕ). ok (m.peer_id, n)) (word-put_uint64 s.peers.num fits ∙ number)),
      notify_ping_complete-short show_ip buf payload _ read short,
    )
