-- ===== src/Mux.antt =====
-- mux/: the three kinds of session, which differ in the library below them. This file has what they
-- have in common: mux/common.go, and of mux/yamux.go the plain form of each step.
pub mod Yamux
pub mod Mplex
pub mod Quic
pub mod Streams
pub mod Sessions
pub mod Dialing
mod Runs
use t.Prelude.{
  ℕ, Bool, true, false, Option, none, some, List, [], ◌∷◌, ◌++◌, Outcome, ok, err, panic, ◌==◌,
  if◌then◌else◌,
}
use t.Bytes.{make, copy}
use t.Multiplexer.Link.{Link, LinkError, link_size, messaging_link, marshal, unmarshal}

-- A stream with the link that opened it. `T` is the type of the streams.
pub record LinkConnection (T : Type 0) : Type 0 where
  pub conn : T
  pub link : Link

pub data StreamError (F : Type 0) : Type 0 where
  opening_stream : F → StreamError F
  writing_handshake : F → StreamError F
  invalid_length : ℕ → StreamError F

-- The end of `directHandshake`, once `Write` has come to an error or a number of bytes.
abbrev pub sent : {F T : Type 0} → T → Outcome F ℕ → Outcome (StreamError F) T
sent s (ok n) = if n == link_size then ok s else err (invalid_length n)
sent s (err e) = err (writing_handshake e)
sent s panic = panic

-- `write` is the `Write` of a stream: the stream afterwards, and the bytes taken or an error.
module _ {F T : Type 0} (write : T → List ℕ → T × Outcome F ℕ) where
  unfoldable pub direct_handshake : Link → T → Outcome (StreamError F) T
  unfolding marshal
  direct_handshake link s = let (s', n) = write s (marshal link) in sent s' n

  unfoldable pub messaging_handshake : T → Outcome (StreamError F) T
  unfolding direct_handshake
  messaging_handshake s = direct_handshake messaging_link s

-- `Bidirectional`, by what `Direct` comes to: the two connections that `Connect` joins.
abbrev pub joined :
    {F T V : Type 0} → V → Outcome (StreamError F) T → Outcome (StreamError F) (T × V)
joined v (ok s) = ok (s, v)
joined v (err e) = err e
joined v panic = panic

-- A stream handshake at the accepting end: `got` is what one `Read` into 18 zeroed bytes comes to.
-- The result is what is given to `Put`, if anything; a panic does not come about here.
abbrev linked : {T : Type 0} → T → Outcome LinkError Link → Option (LinkConnection T)
linked s (ok link) = some (record { conn = s; link = link })
linked s _ = none

unfoldable pub accept_link : {F T : Type 0} → T → Outcome F (List ℕ) → Option (LinkConnection T)
unfolding copy unmarshal
accept_link s (ok got) = linked s (unmarshal (copy (make link_size) got))
accept_link s (err e) = none
accept_link s panic = none

-- One round of the loop in `Start`: the context is done, `Accept` fails, or it gives a stream, whose
-- handshake reads `got`.
pub data Round (F T : Type 0) : Type 0 where
  cancelled : Round F T
  accept_failed : F → Round F T
  accepted : T → Outcome F (List ℕ) → Round F T

-- What `Put` is given for a stream, if anything.
abbrev pub put_stream : {T : Type 0} → Option (LinkConnection T) → List (LinkConnection T)
put_stream none = []
put_stream (some c) = c ∷ []

-- `Start`, for the rounds that are followed: the session afterwards, and what is given to `Put`, by
-- the order in which the streams were accepted. `bye` is `Bye`, `shake` the stream handshake.
module _ {F T U Z : Type 0} (bye : Z → Z)
    (shake : Z → T → Outcome F (List ℕ) → Option (LinkConnection U)) where
  unfoldable pub start : Z → List (Round F T) → Z × List (LinkConnection U)
  start z [] = (z, [])
  start z (cancelled ∷ rounds) = (z, [])
  start z (accept_failed e ∷ rounds) = (bye z, [])
  start z (accepted s got ∷ rounds) =
      let (z', puts) = start z rounds in (z', put_stream (shake z s got) ++ puts)
