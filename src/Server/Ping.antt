-- ===== src/Server/Ping.antt =====
-- server/gossip.go: what nodes tell each other in the pings of the gossip.
pub mod Reports
mod Runs
use t.Prelude.{ℕ, String, List, Outcome, ok, err, panic, length, take, ltb, if◌then◌else◌, ◌>>=◌}
use t.Bytes.{put_uint64, word}
use t.State.PeerMap.{len}
use t.Server.Meta.{Meta, MetaError, blank, unmarshal}
use t.Server.Routing.{Router}

unfoldable pub ack_payload : {P : Type 0} → Router P → List ℕ
unfolding len put_uint64
ack_payload s = put_uint64 (len s.peers)

-- What is noted of a ping: the identifier of the node and the number of its peers. `binary` reads the first
-- eight bytes, and panics if there are fewer.
abbrev noted : List ℕ → Meta → Outcome MetaError (ℕ × ℕ)
noted payload m = if ltb (length payload) 8 then panic else ok (m.peer_id, word (take 8 payload))

unfoldable pub notify_ping_complete :
    (List ℕ → String) → List ℕ → List ℕ → Outcome MetaError (ℕ × ℕ)
unfolding unmarshal word
notify_ping_complete show_ip meta payload = unmarshal show_ip blank meta >>= noted payload
