-- ===== src/Messaging/Streams.antt =====
-- messaging/channel.go: the two loops of a messaging stream, `writer` and `reader`.
pub mod Delivery
use t.Prelude.{
  ℕ, zero, suc, Option, none, some, List, [], ◌∷◌, Outcome, ok, err, panic, ◌>>=◌, length, ◌==◌,
  if◌then◌else◌,
}
use t.Messaging.Message.{
  Message, marshal, message_request_reply, Chunk, Receipt, ReadError, read_from,
}
use t.Messaging.Rpc.{RequestReply, unpack}

-- One `Write(b)`: the bytes taken, and an error or none.
pub record Written (E W : Type 0) : Type 0 where
  pub taken : ℕ
  pub failure : Option E
  pub conn : W

pub data WriteError (E : Type 0) : Type 0 where
  write_failed : E → WriteError E
  mismatched_length : WriteError E

module _ {E W : Type 0} (write : W → List ℕ → Written E W) where
  -- The messages are those taken from `out` until it is closed. The loop ends early on an error.
  pub writer : W → List Message → Outcome (WriteError E) (Unit {0}) × W
  writer w [] = (ok tt, w)
  writer w (m ∷ ms) =
      let b = marshal m in
      let x = write w b in
      let more = writer x.conn ms in
      elim x.failure [
        | some e ↦ (err (write_failed e), x.conn)
        | none ↦ if x.taken == length b then more else (err mismatched_length, x.conn)
      ]

-- What `reader` does with a message: hands it to `in`, or starts `handleRPC` for it.
pub data Dispatch : Type 0 where
  deliver : Message → Dispatch
  handle_rpc : ℕ → RequestReply → Dispatch

unfoldable pub dispatch : Message → Outcome (Unit {0}) Dispatch
dispatch m =
    if m.kind == message_request_reply
    then (do r ← unpack m.payload; ok (handle_rpc m.from r))
    else ok (deliver m)

-- How the loop stands after some rounds: going on, stopped by a read error (the stream is then
-- forgotten), or crashed by a panic.
pub data Ending (E R : Type 0) : Type 0 where
  going : R → Ending E R
  stopped : ReadError E → Ending E R
  crashed : Ending E R

module _ {E R : Type 0} (read : R → ℕ → Chunk E R) where
  after_dispatch :
      Outcome (Unit {0}) Dispatch → List Dispatch × Ending E R → List Dispatch × Ending E R
  after_dispatch (ok d) (ds, e) = (d ∷ ds, e)
  after_dispatch (err _) _ = ([], crashed)
  after_dispatch panic _ = ([], crashed)

  -- The first number is how many rounds of the loop are followed.
  pub reader : ℕ → R → List Dispatch × Ending E R
  unfolding after_dispatch
  reader zero r = ([], going r)
  reader (suc rounds) r =
      let x = read_from read r in
      let more = reader rounds x.reader in
      elim x.outcome [
        | ok m ↦ after_dispatch (dispatch m) more
        | err e ↦ ([], stopped e)
        | panic ↦ ([], crashed)
      ]
