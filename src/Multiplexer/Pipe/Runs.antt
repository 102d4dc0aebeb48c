-- ===== src/Multiplexer/Pipe/Runs.antt =====
-- The theorems on a pipe whose one way ended with an error.
use t.Prelude.{ℕ, ◌<◌, ◌≡◌, refl, ◌⊎◌, true, false, some, List, [], ◌∷◌}
use t.Multiplexer.Pipe.{
  copying, sending, returned, Pipe, Event, copied_left, act_left, act_right, connect, step, run,
}
use t.Multiplexer.Pipe.Closing.{remaining, pipe_ends}

abbrev failed : Pipe ℕ
failed = record {
  left = sending 5;
  right = copying;
  src_closed = true;
  dst_closed = true;
  errors = [];
  errors_closed = false;
  panicked = false;
}

abbrev events : List (Event ℕ)
events = copied_left (some 5) ∷ act_left ∷ act_left ∷ []

pipe_ends_example :
    ((failed.left ≡ copying)
      ⊎ ((failed.left ≡ returned)
          ⊎ ((q : Pipe ℕ) × (step failed act_left ≡ some q)
              × (remaining q.left < remaining failed.left))))
    × ((failed.right ≡ copying)
        ⊎ ((failed.right ≡ returned)
            ⊎ ((q : Pipe ℕ) × (step failed act_right ≡ some q)
                × (remaining q.right < remaining failed.right))))
unfolding run connect
pipe_ends_example = pipe_ends failed events refl
