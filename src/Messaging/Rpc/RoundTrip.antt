-- ===== src/Messaging/Rpc/RoundTrip.antt =====
-- messaging/rpc.go: `Pack` and `Unpack` together, and `Unpack` on a short payload.
use t.Prelude.{ℕ, ◌<◌, ◌≡◌, ok, panic, List, length, arith}
use t.Bytes.{word-put_uint64, copy-make}
use t.Messaging.Rpc.{RequestReply, IsRequestReply, rr_header_length, pack, unpack}

-- `Unpack` of what `Pack` wrote gives the request or reply back.
pub request_reply_roundtrip : (r : RequestReply) → IsRequestReply r → unpack (pack r) ≡ ok r
unfolding unpack pack
request_reply_roundtrip r v =
    ground (arith, word-put_uint64 (length r.payload), word-put_uint64 r.key, copy-make r.payload)

-- A payload of fewer than 17 bytes makes `Unpack` panic, whatever the bytes are.
pub unpack_short : (b : List ℕ) → length b < rr_header_length → unpack b ≡ panic
unfolding unpack
unpack_short b h = ground arith
