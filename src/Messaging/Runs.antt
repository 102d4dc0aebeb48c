-- ===== src/Messaging/Runs.antt =====
-- The theorems on messages, at two messages and a connection whose state is the bytes in flight.
use t.Prelude.{
  ℕ, ◌≡◌, refl, true, none, List, [], ◌∷◌, ◌++◌, ok, length, take, drop, take-length-append,
  drop-length-append, arith,
}
use t.Bytes.{word}
use t.Messaging.Message.{Message, IsMessage, marshal, Chunk}
use t.Messaging.Rpc.{RequestReply, pack}
use t.Messaging.Streams.{Written, writer, Dispatch, going, crashed, reader}
use t.Messaging.Streams.Delivery.{
  FullWrites, FullReads, IsReadable, Dispatches, encodings, reader-writer, short_request_crashes,
}

abbrev call : RequestReply
call = record { request = true; key = 77; payload = 5 ∷ 6 ∷ [] }

abbrev hello : Message
hello = record { kind = 3; from = 9; payload = 1 ∷ 2 ∷ 3 ∷ 4 ∷ [] }

abbrev asked : Message
asked = record { kind = 4; from = 9; payload = pack call }

hello-IsMessage : IsMessage hello
hello-IsMessage = omega arith

asked-IsMessage : IsMessage asked
unfolding pack word
asked-IsMessage = omega arith

abbrev read_some : List ℕ → ℕ → Chunk (Unit {0}) (List ℕ)
read_some pending n = record { bytes = take n pending; failure = none; rest = drop n pending }

abbrev write_all : List ℕ → List ℕ → Written (Unit {0}) (List ℕ)
write_all sent b = record { taken = length b; failure = none; conn = sent ++ b }

writes_full : FullWrites write_all (λ sent. sent)
writes_full = record { takes = λ w b. (w ++ b, refl, refl) }

reads_full : FullReads read_some (λ pending. pending)
reads_full = record {
  delivers =
      λ r b rest e. (rest, rw (e, take-length-append b rest, drop-length-append b rest), refl);
}

hello-IsReadable : IsReadable hello
hello-IsReadable = record { unpacks = λ e. cc }

asked-IsReadable : IsReadable asked
unfolding pack word
asked-IsReadable = record { unpacks = λ e. refl }

reader-writer_example :
    ((writer write_all [] (hello ∷ asked ∷ [])).0 ≡ ok tt)
    × (ds : List Dispatch) × (u : List ℕ) × Dispatches (hello ∷ asked ∷ []) ds
    × (reader read_some 2 (writer write_all [] (hello ∷ asked ∷ [])).1 ≡ (ds, going u))
    × (u ≡ [])
reader-writer_example =
    reader-writer write_all (λ sent. sent) read_some (λ pending. pending) writes_full reads_full
      (hello ∷ asked ∷ []) [] (writer write_all [] (hello ∷ asked ∷ [])).1
      (hello-IsMessage, (asked-IsMessage, tt)) (hello-IsReadable, (asked-IsReadable, tt)) refl refl

-- A request without anything behind its first two bytes.
abbrev short : Message
short = record { kind = 4; from = 9; payload = 0 ∷ 0 ∷ [] }

short-IsMessage : IsMessage short
short-IsMessage = omega arith

short_request_crashes_example :
    (ds : List Dispatch) × Dispatches (hello ∷ []) ds
    × (reader read_some 2 (encodings (hello ∷ []) ++ (marshal short ++ [])) ≡ (ds, crashed))
short_request_crashes_example =
    short_request_crashes read_some (λ pending. pending) reads_full (hello ∷ []) short []
      (encodings (hello ∷ []) ++ (marshal short ++ [])) (hello-IsMessage, tt) (hello-IsReadable, tt)
      short-IsMessage refl (omega arith) refl
