-- ===== src/Mux/Runs.antt =====
-- The theorems on sessions, with streams that count what was written to them.
use t.Prelude.{ℕ, ◌+◌, ◌≤◌, ◌≡◌, refl, true, false, some, List, [], ◌∷◌, Outcome, ok, arith}
use t.Multiplexer.Config.{Config}
use t.Multiplexer.Channel.{new_channel}
use t.Multiplexer.Link.{Link, IsLink, marshal}
use t.Mux.{accept_failed}
use t.Mux.Yamux
use t.Mux.Yamux.{Yamux}
use t.Mux.Mplex
use t.Mux.Mplex.{Mplex}
use t.Mux.Quic
use t.Mux.Quic.{Quic, new_quic_peer}
use t.Mux.Quic.Closing.{say_bye, run_null, closings, closings_once}
use t.Mux.Streams.{stream_carries_link}

abbrev config : Config ℕ
config = record { has_logger = true; conn = some 5; peer = 9; initiator = true; wait = 1 }

abbrev session : Quic ℕ ℕ
session = record {
  config = config;
  channel = new_channel;
  timeout_closed = false;
  session_closes = 0;
  timeout_closes = 0;
}

closings_once_example :
    let p = closings session (say_bye ∷ run_null (accept_failed tt) ∷ say_bye ∷ []) in
    (p.timeout_closes ≤ 1) × (p.session_closes ≤ 1) × (p.session_closes ≤ p.timeout_closes)
unfolding new_quic_peer
closings_once_example =
    closings_once config session (say_bye ∷ run_null (accept_failed tt) ∷ say_bye ∷ []) refl

abbrev yamux : Yamux ℕ ℕ ℕ
yamux = record {
  session = 5;
  config = config;
  channel = new_channel;
  session_closed = false;
  conn_closed = false;
}

abbrev mplex : Mplex ℕ ℕ ℕ
mplex = record {
  session = 5;
  config = config;
  channel = new_channel;
  session_closed = false;
  conn_closed = false;
}

abbrev link : Link
link = record { source = 8; destination = 31; protocol = 0; alpn = 2 }

link-IsLink : IsLink link
link-IsLink = record {
  source_fits = omega arith;
  destination_fits = omega arith;
  protocol_fits = omega arith;
  alpn_fits = omega arith;
}

abbrev writing : ℕ → List ℕ → ℕ × Outcome (Unit {0}) ℕ
writing t b = (t + 1, ok 18)

stream_carries_link_example :
    (Yamux.direct writing yamux (ok 0) link ≡ ok 1)
    × (Yamux.stream_handshake {F = Unit {0}} yamux 4 (ok (marshal link))
        ≡ some (record { conn = 4; link = link }))
    × (Mplex.direct writing mplex (ok 0) link ≡ ok (Mplex.wrap mplex 1))
    × (Mplex.stream_handshake {F = Unit {0}} mplex 4 (ok (marshal link))
        ≡ some (record { conn = Mplex.wrap mplex 4; link = link }))
    × (Quic.direct writing session (ok 0) link ≡ ok (Quic.wrap_quic (some 5) 1))
    × (Quic.stream_handshake {F = Unit {0}} session 4 (ok (marshal link))
        ≡ some (record { conn = Quic.wrap_quic (some 5) 4; link = link }))
stream_carries_link_example =
    stream_carries_link writing yamux yamux mplex mplex session session 0 1 4 link link-IsLink refl
