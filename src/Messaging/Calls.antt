-- ===== src/Messaging/Calls.antt =====
-- messaging/rpc.go: the calls of one node that wait for a reply, and the goroutines of `handleRPC` that
-- bring one. A call is numbered, and so is its channel `repCh`; an event is one atomic action, and
-- an action that would wait is no step.
pub mod Pending
pub mod Refinement
pub mod Waiting
pub mod Replies
mod Runs
use t.Prelude.{
  ℕ, Bool, true, false, Option, none, some, List, [], ◌∷◌, ◌++◌, ◌==◌, if◌then◌else◌, Map, lookup,
  insert, delete,
}
use t.Messaging.Message.{Message, message_request_reply}
use t.Messaging.Rpc.{RequestReply, pack}

-- The message that a call of the node `self` writes.
unfoldable pub request_message : ℕ → ℕ → List ℕ → Message
unfolding pack
request_message self key b = record {
  kind = message_request_reply;
  from = self;
  payload = pack (record { request = true; key = key; payload = b });
}

-- `handleRPC` of the node `self` on a request: what it writes back, given what the receiver of
-- requests answers, if it answers within ten seconds.
unfoldable pub answer_request : ℕ → RequestReply → Option (List ℕ) → Option Message
unfolding pack
answer_request self r none = none
answer_request self r (some answer) = some (record {
  kind = message_request_reply;
  from = self;
  payload = pack (record { request = false; key = r.key; payload = answer });
})

-- What a call returns: a reply, `ErrRPCTimeout`, or the error of `write`.
pub data Result : Type 0 where
  replied : List ℕ → Result
  timed_out : Result
  gone : Result

-- Where a call stands: before its `write` has ended, in its `select`, before the deferred `Delete`,
-- or returned.
pub data Phase : Type 0 where
  writing : Phase
  waiting : Phase
  leaving : Result → Phase
  returned : Result → Phase

-- A `handleRPC` that has taken the channel of a call out of the table and sends a reply to it.
pub record Handing : Type 0 where
  pub key : ℕ
  pub call : ℕ
  pub reply : List ℕ

-- `table` is the map `rr` from keys to channels; a call has its key and its phase.
pub record Calls : Type 0 where
  pub table : Map ℕ
  pub calls : Map (ℕ × Phase)
  pub handing : List Handing

-- `begin` is the `LoadOrStore` that finds its key free; those before it change nothing. `written`
-- says whether `write` ended without an error. `arrive` is the `LoadAndDelete` of a reply, and
-- `hand` the meeting of such a goroutine with the `select` of the call.
pub data Event : Type 0 where
  begin : ℕ → ℕ → Event
  written : ℕ → Bool → Event
  expire : ℕ → Event
  arrive : ℕ → List ℕ → Event
  hand : ℕ → Event
  finish : ℕ → Event

unfoldable pub no_calls : Calls
no_calls = record { table = []; calls = []; handing = [] }

abbrev pub moved : Calls → ℕ → ℕ → Phase → Calls
moved s id key phase = record s { calls = insert id (key, phase) s.calls }

unfoldable pub begin_call : Calls → ℕ → ℕ → Option (ℕ × Phase) → Option ℕ → Option Calls
begin_call s id key none none =
    some (record s { table = insert key id s.table; calls = insert id (key, writing) s.calls })
begin_call s id key _ _ = none

unfoldable pub end_write : Calls → ℕ → Bool → Option (ℕ × Phase) → Option Calls
end_write s id true (some (key, writing)) = some (moved s id key waiting)
end_write s id false (some (key, writing)) = some (moved s id key (leaving gone))
end_write s id _ _ = none

unfoldable pub run_out : Calls → ℕ → Option (ℕ × Phase) → Option Calls
run_out s id (some (key, waiting)) = some (moved s id key (leaving timed_out))
run_out s id _ = none

-- A reply whose key is not in the table is dropped.
unfoldable pub take_channel : Calls → ℕ → List ℕ → Option ℕ → Calls
take_channel s key reply none = s
take_channel s key reply (some id) = record s {
  table = delete key s.table;
  handing = s.handing ++ record { key = key; call = id; reply = reply } ∷ [];
}

-- The first goroutine that sends on the channel of the call, and the others.
unfoldable pub pick : ℕ → List Handing → Option (Handing × List Handing)
pick id [] = none
pick id (h ∷ hs) =
    let rest = pick id hs in
    if h.call == id
    then some (h, hs)
    else elim rest [ some (x, xs) ↦ some (x, h ∷ xs) | none ↦ none ]

unfoldable pub meet :
    Calls → ℕ → Option (ℕ × Phase) → Option (Handing × List Handing) → Option Calls
meet s id (some (key, waiting)) (some (h, rest)) =
    some (record (moved s id key (leaving (replied h.reply))) { handing = rest })
meet s id _ _ = none

unfoldable pub return : Calls → ℕ → Option (ℕ × Phase) → Option Calls
return s id (some (key, leaving r)) =
    some (record (moved s id key (returned r)) { table = delete key s.table })
return s id _ = none

unfoldable pub step : Calls → Event → Option Calls
unfolding begin_call end_write run_out take_channel pick meet return
step s (begin id key) = begin_call s id key (lookup id s.calls) (lookup key s.table)
step s (written id sent) = end_write s id sent (lookup id s.calls)
step s (expire id) = run_out s id (lookup id s.calls)
step s (arrive key reply) = some (take_channel s key reply (lookup key s.table))
step s (hand id) = meet s id (lookup id s.calls) (pick id s.handing)
step s (finish id) = return s id (lookup id s.calls)

-- Nothing is known of a run in which an event is no step.
unfoldable pub run : Calls → List Event → Option Calls
unfolding step
run s [] = some s
run s (e ∷ es) = elim (step s e) [ some t ↦ run t es | none ↦ none ]
