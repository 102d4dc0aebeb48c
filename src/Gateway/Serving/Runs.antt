-- ===== src/Gateway/Serving/Runs.antt =====
-- The theorem on the mux of the gateway at a run of two connections.
use t.Prelude.{ℕ, ◌+◌, ◌≤◌, ◌≡◌, refl, true, false, List, [], ◌∷◌, ◌++◌, All, length}
use t.Multiplexer.Alpn
use t.Gateway.{listen_for, listener}
use t.Gateway.Serving.{
  accepting, Delivery, Mux, Event, listen, test_context, arrive, agree, send, accept,
  channel_capacity, new_mux, pick, of_channel, take_first, run,
}
use t.Gateway.Serving.Queues.{count, carried, HasListener}
use t.Gateway.Serving.Safety.{serving_safe}

-- A connection that is given out, and one whose protocol has no listener.
abbrev two_conns : List Event
two_conns =
    listen (Alpn.http_name ∷ Alpn.raw_name ∷ [])
    ∷ test_context
    ∷ arrive 7 true
    ∷ test_context
    ∷ arrive 8 true
    ∷ agree 1 Alpn.raw_name
    ∷ send 0
    ∷ test_context
    ∷ agree 0 Alpn.multiplexer_name
    ∷ accept 0
    ∷ []

abbrev served : Delivery
served = record { channel = 0; proto = Alpn.raw_name; conn = 7 }

abbrev after_two : Mux
after_two = record {
  table = (Alpn.raw_name, 0) ∷ (Alpn.http_name, 0) ∷ [];
  made = 1;
  serving = accepting;
  cancelled = false;
  stopped = false;
  handshaking = [];
  sending = [];
  queued = [];
  arrived = 8 ∷ 7 ∷ [];
  sent = served ∷ [];
  given = served ∷ [];
  closed = 8 ∷ [];
}

serving_safe_example :
    ((x : ℕ)
      → count x after_two.arrived
        ≡ count x after_two.handshaking
          + carried x after_two.sending
          + carried x after_two.queued
          + carried x after_two.given
          + count x after_two.closed)
    × ((ch : ℕ)
        → (of_channel ch after_two.given ++ of_channel ch after_two.queued
            ≡ of_channel ch after_two.sent)
          × (length (of_channel ch after_two.queued) ≤ channel_capacity))
    × All (HasListener after_two.table) after_two.given
unfolding run new_mux listen_for listener pick of_channel take_first
serving_safe_example = serving_safe after_two two_conns refl
