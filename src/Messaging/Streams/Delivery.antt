-- ===== src/Messaging/Streams/Delivery.antt =====
-- messaging/channel.go: a `writer` at one end of a connection and a `reader` at the other.
use t.Prelude.{
  ℕ, suc, ◌<◌, ◌≡◌, refl, sym, ◌∙◌, Outcome-cases, inl, inr, true, ◌&&◌, none, List, [], ◌∷◌, ◌++◌,
  ok, panic, length, leb, All, arith,
}
use mathlib.Core.List.{append_assoc, append-nil}
use t.Bytes.{word, slice}
use t.Messaging.Message.{
  Message, IsMessage, header, marshal, message_header_length, message_request_reply, fits_int,
  Chunk, read_from,
}
use t.Messaging.Message.RoundTrip.{read_from-marshal}
use t.Messaging.Rpc.{rr_header_length, unpack}
use t.Messaging.Streams.{
  Written, writer, Dispatch, dispatch, going, crashed, after_dispatch, reader,
}

-- A connection that takes every write whole; `sent` is what has gone into it.
pub record FullWrites {E W : Type 0} (write : W → List ℕ → Written E W) (sent : W → List ℕ)
    : Type 0 where
  pub takes :
      (w : W) (b : List ℕ)
      → (x : W) × (write w b ≡ record { taken = length b; failure = none; conn = x })
        × (sent x ≡ sent w ++ b)

-- A connection whose reads are filled as long as enough is pending.
pub record FullReads {E R : Type 0} (read : R → ℕ → Chunk E R) (pending : R → List ℕ) : Type 0 where
  pub delivers :
      (r : R) (b rest : List ℕ)
      → pending r ≡ b ++ rest
      → (s : R) × (read r (length b) ≡ record { bytes = b; failure = none; rest = s })
        × (pending s ≡ rest)

-- The bytes of a run of messages.
abbrev pub encodings : List Message → List ℕ
encodings [] = []
encodings (m ∷ ms) = marshal m ++ encodings ms

-- A request or a reply has a header of 17 bytes, and the length in it fits a signed integer.
pub record IsReadable (m : Message) : Type 0 where
  pub unpacks :
      m.kind ≡ message_request_reply
      → (leb rr_header_length (length m.payload) && fits_int (word (slice m.payload 0 8))) ≡ true

-- `ds` is what the reader does with the messages `ms`, none of which makes it panic.
abbrev pub Dispatches : List Message → List Dispatch → Type 0
Dispatches [] [] = Unit
Dispatches (m ∷ ms) (d ∷ ds) = (dispatch m ≡ ok d) × Dispatches ms ds
Dispatches _ _ = ⊥

dispatch-IsReadable : (m : Message) → IsReadable m → (d : Dispatch) × (dispatch m ≡ ok d)
unfolding dispatch unpack
dispatch-IsReadable m v = elim (Outcome-cases (dispatch m)) [
  | inl read ↦ read
  | inr (inl (e, failing)) ↦ absurd (ground (arith, v.unpacks, failing))
  | inr (inr failing) ↦ absurd (ground (arith, v.unpacks, failing))
]

messages_dispatched :
    (ms : List Message) → All IsReadable ms → (ds : List Dispatch) × Dispatches ms ds
messages_dispatched [] v = ([], tt)
messages_dispatched (m ∷ ms) (v, vs) =
    let (d, e) = dispatch-IsReadable m v in
    let (ds, es) = messages_dispatched ms vs in (d ∷ ds, (e, es))

-- A request or a reply that is shorter than its header makes the reader panic.
dispatch_short :
    (m : Message)
    → m.kind ≡ message_request_reply
    → length m.payload < rr_header_length
    → dispatch m ≡ panic
unfolding dispatch unpack
dispatch_short m rpc short = ground arith

module _ {E W : Type 0} (write : W → List ℕ → Written E W) (sent : W → List ℕ)
    (full : FullWrites write sent) where
  -- The writer ends without an error, having sent the bytes of its messages in order.
  pub sent-writer :
      (ms : List Message) (w : W)
      → (x : W) × (writer write w ms ≡ (ok tt, x)) × (sent x ≡ sent w ++ encodings ms)
  unfolding writer
  sent-writer [] w = (w, refl, ground (arith, append-nil (sent w)))
  sent-writer (m ∷ ms) w =
      let (y, e, p) = full.takes w (marshal m) in
      let (x, f, q) = sent-writer ms y in
      (x, ground (arith, e, f), rw (q, p) (append_assoc (sent w) (marshal m) (encodings ms)))

length-header : (m : Message) → length (header m) ≡ message_header_length
unfolding header
length-header m = omega arith

module _ {E R : Type 0} (read : R → ℕ → Chunk E R) (pending : R → List ℕ)
    (full : FullReads read pending) where
  -- A read of one message leaves what follows it.
  read_one :
      (m : Message) (rest : List ℕ) (r : R)
      → IsMessage m
      → pending r ≡ marshal m ++ rest
      → (u : R) × (read_from read r
          ≡ record { count = length (marshal m); reader = u; outcome = ok m })
        × (pending u ≡ rest)
  read_one m rest r v p =
      let (s, e, q) =
        full.delivers r (header m) (m.payload ++ rest)
          (p ∙ unfold marshal in append_assoc (header m) m.payload rest) in
      let (u, f, o) = full.delivers s m.payload rest q in
      (u, read_from-marshal read m v r s u (rw (length-header m) at e) f, o)

  -- As many rounds as there are messages dispatch each of them, in order.
  pub reader-encodings :
      (ms : List Message) (ds : List Dispatch) (rest : List ℕ) (r : R)
      → All IsMessage ms
      → Dispatches ms ds
      → pending r ≡ encodings ms ++ rest
      → (u : R) × (reader read (length ms) r ≡ (ds, going u)) × (pending u ≡ rest)
  unfolding reader
  reader-encodings [] [] rest r v d p = (r, refl, p)
  reader-encodings (m ∷ ms) (d ∷ ds) rest r (v, vs) (e, es) p =
      let (s, f, q) =
        read_one m (encodings ms ++ rest) r v (p ∙ append_assoc (marshal m) (encodings ms) rest) in
      let (u, g, o) = reader-encodings ms ds rest s vs es q in (u, ground (arith, e, f, g), o)
  reader-encodings [] (d ∷ ds) rest r v h p = absurd h
  reader-encodings (m ∷ ms) [] rest r v h p = absurd h

  -- After messages that are dispatched, one that makes the reader panic ends it.
  reader_crash :
      (ms : List Message) (ds : List Dispatch) (m : Message) (rest : List ℕ) (r : R)
      → All IsMessage ms
      → Dispatches ms ds
      → IsMessage m
      → dispatch m ≡ panic
      → pending r ≡ encodings ms ++ (marshal m ++ rest)
      → reader read (suc (length ms)) r ≡ (ds, crashed)
  unfolding reader after_dispatch
  reader_crash [] [] m rest r vs es v crash p =
      let (s, f, q) = read_one m rest r v p in ground (arith, f, crash)
  reader_crash (n ∷ ms) (d ∷ ds) m rest r (w, vs) (e, es) v crash p =
      let (s, f, q) =
        read_one n (encodings ms ++ (marshal m ++ rest)) r w
          (p ∙ append_assoc (marshal n) (encodings ms) (marshal m ++ rest)) in
      let end = reader_crash ms ds m rest s vs es v crash q in ground (arith, e, f, end)
  reader_crash [] (d ∷ ds) m rest r vs h v crash p = absurd h
  reader_crash (n ∷ ms) [] m rest r vs h v crash p = absurd h

  -- Over a connection that fills every read, a peer sends messages, of which each request and reply
  -- has its header of 17 bytes, with a length in it that fits a signed integer, and then a request
  -- or a reply of fewer than 17 bytes: the reader dispatches the first in order, one round each,
  -- and panics in the next round, whatever the peer sends after that.
  pub short_request_crashes :
      (ms : List Message) (m : Message) (rest : List ℕ) (r : R)
      → All IsMessage ms
      → All IsReadable ms
      → IsMessage m
      → m.kind ≡ message_request_reply
      → length m.payload < rr_header_length
      → pending r ≡ encodings ms ++ (marshal m ++ rest)
      → (ds : List Dispatch) × Dispatches ms ds × (reader read (suc (length ms)) r ≡ (ds, crashed))
  short_request_crashes ms m rest r vs readable v rpc short p =
      let (ds, es) = messages_dispatched ms readable in
      (ds, es, reader_crash ms ds m rest r vs es v (dispatch_short m rpc short) p)

module _ {E W R : Type 0} (write : W → List ℕ → Written E W) (sent : W → List ℕ)
    (read : R → ℕ → Chunk E R) (pending : R → List ℕ) (writes : FullWrites write sent)
    (reads : FullReads read pending) where
  -- Over a connection that takes every write whole and fills every read, and for messages of which
  -- each request and reply has its header of 17 bytes, with a length in it that fits a signed
  -- integer: the writer of a fresh stream ends without an error, and a reader to whom those bytes
  -- are pending dispatches each of the messages in order, one round each, and then has nothing
  -- pending.
  pub reader-writer :
      (ms : List Message) (w : W) (r : R)
      → All IsMessage ms
      → All IsReadable ms
      → sent w ≡ []
      → pending r ≡ sent (writer write w ms).1
      → ((writer write w ms).0 ≡ ok tt)
        × (ds : List Dispatch) × (u : R) × Dispatches ms ds
        × (reader read (length ms) r ≡ (ds, going u))
        × (pending u ≡ [])
  reader-writer ms w r v readable start same =
      let (ds, d) = messages_dispatched ms readable in
      let (x, e, p) = sent-writer write sent writes ms w in
      let ended : writer write w ms ≡ (ok tt, x) = e in
      let bytes : pending r ≡ encodings ms ++ [] =
        same ∙ rw (ended, p, start) (sym (append-nil (encodings ms))) in
      let (u, f, o) = reader-encodings read pending reads ms ds [] r v d bytes in
      (rw ended, ds, u, d, f, o)
