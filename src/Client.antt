-- ===== src/Client.antt =====
-- client/tunnel.go: the client's side of the first exchange, and its test of a stream's protocol.
pub mod Meeting
pub mod Tunnel
pub mod Commands
pub mod Startup
pub mod Cli
mod Runs
use t.Prelude.{
  ℕ, Bool, true, false, not, Option, some, List, Outcome, ok, err, panic, ◌==◌, if◌then◌else◌, Map,
}
use t.State.PeerMap.{PeerMap, PeerError, new_peer_map, new_peer}
use t.Bytes.{copy}
use t.Multiplexer.Alpn
use t.Multiplexer.Config.{Config}
use t.Multiplexer.Link.{Link, LinkError, link_size, marshal, unmarshal}

-- The scheme of the forwarding target.
pub data Scheme : Type 0 where
  http_scheme https_scheme tcp_scheme other_scheme : Scheme

unfoldable pub alpn_check : ℕ → Scheme → Bool
alpn_check a http_scheme = a == Alpn.http
alpn_check a https_scheme = a == Alpn.http
alpn_check a tcp_scheme = a == Alpn.raw
alpn_check a other_scheme = false

-- What ends the client, in the order in which it can come about.
pub data HandshakeError (F : Type 0) : Type 0 where
  writing_handshake : F → HandshakeError F
  invalid_length_sent : ℕ → HandshakeError F
  reading_handshake : F → HandshakeError F
  unmarshal_link : HandshakeError F
  unmarshal_name : F → HandshakeError F

-- What the client proposes.
unfoldable pub proposal : ℕ → Link
proposal proto = record { source = 0; destination = 0; protocol = proto; alpn = Alpn.multiplexer }

module _ {F N : Type 0} where
  -- The name is decoded from the connection last.
  abbrev with_name : Link → Outcome F N → Outcome (HandshakeError F) (Link × N)
  with_name link (ok name) = ok (link, name)
  with_name link (err e) = err (unmarshal_name e)
  with_name link panic = panic

  abbrev with_reply : Outcome F N → Outcome LinkError Link → Outcome (HandshakeError F) (Link × N)
  with_reply decoded (ok link) = with_name link decoded
  with_reply decoded (err e) = err unmarshal_link
  with_reply decoded panic = panic

  -- The reply is read over the bytes that were sent.
  abbrev after_write :
      List ℕ → Outcome F (List ℕ) → Outcome F N → Outcome (HandshakeError F) (Link × N)
  after_write sent (err e) decoded = err (reading_handshake e)
  after_write sent panic decoded = panic
  after_write sent (ok got) decoded = with_reply decoded (unmarshal (copy sent got))

  -- `peerNegotiation`; `written`, `got` and `decoded` are what the connection answers.
  unfoldable pub peer_negotiation :
      ℕ → Outcome F ℕ → Outcome F (List ℕ) → Outcome F N → Outcome (HandshakeError F) (Link × N)
  unfolding proposal marshal unmarshal
  peer_negotiation proto (err e) got decoded = err (writing_handshake e)
  peer_negotiation proto panic got decoded = panic
  peer_negotiation proto (ok n) got decoded =
      if n == link_size
      then after_write (marshal (proposal proto)) got decoded
      else err (invalid_length_sent n)

-- The configuration of the client's session, which does not wait.
abbrev pub client_config : {C : Type 0} → C → Link → Config C
client_config conn link = record {
  has_logger = true;
  conn = some conn;
  peer = link.destination;
  initiator = true;
  wait = 0;
}

-- `Tunnel` after its negotiation: the map of sessions with the one to the server, or an error.
module _ {C E P : Type 0} (registry : Map (Config C → Outcome E P)) (closes : P → ℕ → Bool) where
  unfoldable pub register_server : C → Link → PeerMap P × Option (PeerError E)
  unfolding new_peer_map new_peer
  register_server conn link =
      new_peer registry closes (new_peer_map link.source) link.protocol (client_config conn link)

-- What `Tunnel` does with a stream: it is closed, given to the HTTP forwarder, or joined to a new
-- connection to the target; or the client exits.
pub data Treatment (N : Type 0) : Type 0 where
  closed : Treatment N
  forwarded : Treatment N
  joined_to : N → Treatment N
  exits : Treatment N

-- `dialled` is what dialling the target comes to.
unfoldable pub treat_stream : {F N : Type 0} → Scheme → Outcome F N → Link → Treatment N
unfolding alpn_check
treat_stream scheme dialled link =
    if not (alpn_check link.alpn scheme)
    then closed
    else if link.alpn == Alpn.multiplexer
    then exits
    else if link.alpn == Alpn.raw
    then elim dialled [ ok n ↦ joined_to n | _ ↦ closed ]
    else forwarded
