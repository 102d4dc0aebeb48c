-- ===== src/Server/Ping/Runs.antt =====
-- The theorem on pings at node 50, which has a session with node 8.
use t.Prelude.{ℕ, ◌≡◌, refl, List, [], ◌∷◌, ok, panic, lookup, arith}
use t.State.PeerMap.Counter.{IsCounted}
use t.Server.Samples.{parse_ip, show_ip, middle, seven, sessions}
use t.Server.Meta.{marshal}
use t.Server.Meta.RoundTrip.{IsMeta}
use t.Server.Ping.{ack_payload, notify_ping_complete}
use t.Server.Ping.Reports.{ping_reports}

middle-IsMeta : IsMeta middle
middle-IsMeta = record {
  port_fits = omega arith;
  peer_fits = omega arith;
  protocol_fits = omega arith;
}

one_peer-IsCounted : IsCounted (sessions ((8, 800) ∷ []))
unfolding lookup
one_peer-IsCounted = record { distinct = (refl, tt); counted = refl }

ping_reports_example :
    (buf : List ℕ) × (marshal parse_ip middle ≡ ok buf)
    × (notify_ping_complete show_ip buf (ack_payload seven) ≡ ok (50, 1))
    × (notify_ping_complete show_ip buf (1 ∷ []) ≡ panic)
ping_reports_example =
    ping_reports parse_ip show_ip middle seven
      (0 ∷ 0 ∷ 0 ∷ 0 ∷ 0 ∷ 0 ∷ 0 ∷ 0 ∷ 0 ∷ 0 ∷ 255 ∷ 255 ∷ 10 ∷ 0 ∷ 0 ∷ 1 ∷ []) 10 0 0 1 (1 ∷ [])
      middle-IsMeta refl refl refl one_peer-IsCounted (omega arith) (omega arith)
