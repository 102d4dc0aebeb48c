-- ===== src/Messaging/Rpc.antt =====
-- messaging/rpc.go: the request or reply that a message of kind `message_request_reply` carries.
pub mod RoundTrip
use t.Prelude.{
  ℕ, ◌≡◌, Bool, true, ◌&&◌, List, [], ◌∷◌, ◌++◌, Outcome, ok, panic, length, drop, leb, ◌==◌,
  if◌then◌else◌,
}
use t.Bytes.{IsU64, put_uint64, word, slice, make, copy}
use t.Messaging.Message.{fits_int}

pub record RequestReply : Type 0 where
  pub request : Bool
  pub key : ℕ
  pub payload : List ℕ

abbrev pub rr_header_length : ℕ
rr_header_length = 17

pub record IsRequestReply (r : RequestReply) : Type 0 where
  pub key_fits : IsU64 r.key
  pub length_fits : fits_int (length r.payload) ≡ true

unfoldable pub pack : RequestReply → List ℕ
unfolding put_uint64
pack r =
    put_uint64 (length r.payload) ++ put_uint64 r.key ++ (if r.request then 1 else 0) ∷ r.payload

-- The receiver is fresh at each call, so `request` starts as `false`. A buffer that is too short
-- panics, and so does a length that is negative as a signed integer.
unfoldable pub unpack : List ℕ → Outcome (Unit {0}) RequestReply
unfolding word
unpack b =
    let dl = word (slice b 0 8) in
    if leb rr_header_length (length b) && fits_int dl
    then ok (record {
      request = word (slice b 16 17) == 1;
      key = word (slice b 8 16);
      payload = copy (make dl) (drop rr_header_length b);
    })
    else panic
