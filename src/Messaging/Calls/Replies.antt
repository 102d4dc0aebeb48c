-- ===== src/Messaging/Calls/Replies.antt =====
-- messaging/rpc.go: one call from its `LoadOrStore` to its return, and the bytes that it takes.
use t.Prelude.{ℕ, ◌≡◌, none, some, List, lookup}
use t.Messaging.Message.{Message}
use t.Messaging.Calls.{replied, returned, Calls}

-- What is left of a call that was answered: its result, and nothing in the table.
pub record Answered (s t : Calls) (id key : ℕ) (reply : List ℕ) : Type 0 where
  pub result : lookup id t.calls ≡ some (key, returned (replied reply))
  pub free : lookup key t.table ≡ none
  pub handed : t.handing ≡ s.handing
