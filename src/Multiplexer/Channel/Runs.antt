-- ===== src/Multiplexer/Channel/Runs.antt =====
-- The theorems on the hand-over channel at a run of two streams and a close.
use t.Prelude.{ℕ, ◌≤◌, ◌≡◌, refl, true, false, List, [], ◌∷◌, ◌++◌, length}
use t.Multiplexer.Channel.{
  Channel, Event, call_run, put, forward, receive, call_close, close_closer, see_closer,
  test_closed, close_outgoing, ended, outgoing_capacity, new_channel, run,
}
use t.Multiplexer.Channel.Delivery.{held, handed_over, channel_safe}

abbrev two_streams : List (Event ℕ)
two_streams =
    call_run
    ∷ put 7
    ∷ call_run
    ∷ forward
    ∷ put 8
    ∷ call_close
    ∷ forward
    ∷ receive
    ∷ call_close
    ∷ close_closer
    ∷ see_closer
    ∷ test_closed
    ∷ close_outgoing
    ∷ []

abbrev after_close : Channel ℕ
after_close = record {
  outgoing = 8 ∷ [];
  outgoing_closed = true;
  closer_closed = true;
  closed = true;
  ch_closed = true;
  started = true;
  cancelled = false;
  closing = 0;
  running = ended;
  panicked = false;
  received = 7 ∷ [];
}

channel_safe_example :
    (after_close.panicked ≡ false)
    × (length after_close.outgoing ≤ outgoing_capacity)
    × (after_close.received ++ (after_close.outgoing ++ held after_close.running)
        ≡ handed_over two_streams)
unfolding run new_channel
channel_safe_example = channel_safe after_close two_streams refl
