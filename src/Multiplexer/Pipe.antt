-- ===== src/Multiplexer/Pipe.antt =====
-- multiplexer/pipe.go and util/reader.go: `Connect`, which copies between two connections, both ways
-- at once. An event is one action of one of its three goroutines.
pub mod Closing
mod Runs
use t.Prelude.{
  ℕ, ◌+◌, Bool, true, false, ◌&&◌, Option, none, some, List, [], ◌∷◌, ◌++◌, length, ltb,
  if◌then◌else◌,
}

-- Where a goroutine `pipe` stands: in its copy; closing the source, then the destination, after a
-- copy that came to an error or none; sending that error; or returned.
pub data Copying (F : Type 0) : Type 0 where
  copying : Copying F
  closing_source : Option F → Copying F
  closing_destination : Option F → Copying F
  sending : F → Copying F
  returned : Copying F

-- `left` copies from `src` to `dst`, and `right` the other way. `errors` is what the channel holds;
-- `panicked` says that it was sent on after its close, which only the third goroutine
-- does, once.
pub record Pipe (F : Type 0) : Type 0 where
  pub left : Copying F
  pub right : Copying F
  pub src_closed : Bool
  pub dst_closed : Bool
  pub errors : List F
  pub errors_closed : Bool
  pub panicked : Bool

-- `copied` ends a copy; `act` is the next action of a `pipe` after that; `wait_group` is the end of
-- the third goroutine, once both have returned; `take_error` is a receive of whoever called
-- `Connect`, which nobody need do.
pub data Event (F : Type 0) : Type 0 where
  copied_left : Option F → Event F
  copied_right : Option F → Event F
  act_left : Event F
  act_right : Event F
  wait_group : Event F
  take_error : Event F

abbrev pub errors_capacity : ℕ
errors_capacity = 2

module _ {F : Type 0} where
  unfoldable pub connect : Pipe F
  connect = record {
    left = copying;
    right = copying;
    src_closed = false;
    dst_closed = false;
    errors = [];
    errors_closed = false;
    panicked = false;
  }

  abbrev after_close : Option F → Copying F
  after_close none = returned
  after_close (some e) = sending e

  -- A send waits while the channel is full.
  unfoldable pub send_error : F → Pipe F → Option (Pipe F)
  send_error e p =
      if p.errors_closed
      then some (record p { panicked = true })
      else if ltb (length p.errors) errors_capacity
      then some (record p { errors = p.errors ++ e ∷ [] })
      else none

  abbrev returned_left : Option (Pipe F) → Option (Pipe F)
  returned_left none = none
  returned_left (some p) = some (record p { left = returned })

  abbrev returned_right : Option (Pipe F) → Option (Pipe F)
  returned_right none = none
  returned_right (some p) = some (record p { right = returned })

  unfoldable pub go_left : Pipe F → Copying F → Option (Pipe F)
  unfolding send_error
  go_left p copying = none
  go_left p (closing_source r) = some (record p { src_closed = true; left = closing_destination r })
  go_left p (closing_destination r) = some (record p { dst_closed = true; left = after_close r })
  go_left p (sending e) = returned_left (send_error e p)
  go_left p returned = none

  unfoldable pub go_right : Pipe F → Copying F → Option (Pipe F)
  unfolding send_error
  go_right p copying = none
  go_right p (closing_source r) =
      some (record p { dst_closed = true; right = closing_destination r })
  go_right p (closing_destination r) = some (record p { src_closed = true; right = after_close r })
  go_right p (sending e) = returned_right (send_error e p)
  go_right p returned = none

  unfoldable pub finish : Pipe F → Copying F → Copying F → Option (Pipe F)
  finish p returned returned = some (record p { errors_closed = true })
  finish p _ _ = none

  -- A closed channel gives the receiver nothing more.
  unfoldable pub receive : Pipe F → List F → Option (Pipe F)
  receive p [] = if p.errors_closed then some p else none
  receive p (e ∷ es) = some (record p { errors = es })

  abbrev end_left : Pipe F → Option F → Copying F → Option (Pipe F)
  end_left p r copying = some (record p { left = closing_source r })
  end_left p r _ = none

  abbrev end_right : Pipe F → Option F → Copying F → Option (Pipe F)
  end_right p r copying = some (record p { right = closing_source r })
  end_right p r _ = none

  unfoldable pub step : Pipe F → Event F → Option (Pipe F)
  unfolding go_left go_right finish receive
  step p (copied_left r) = end_left p r p.left
  step p (copied_right r) = end_right p r p.right
  step p act_left = go_left p p.left
  step p act_right = go_right p p.right
  step p wait_group = if p.errors_closed then none else finish p p.left p.right
  step p take_error = receive p p.errors

  -- Nothing is known of a run in which an event is no step.
  unfoldable pub run : Pipe F → List (Event F) → Option (Pipe F)
  unfolding step
  run p [] = some p
  run p (e ∷ es) = elim (step p e) [ some q ↦ run q es | none ↦ none ]
