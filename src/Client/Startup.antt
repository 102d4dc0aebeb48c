-- ===== src/Client/Startup.antt =====
-- client/tunnel.go: `Tunnel` from its options to the session with the server.

pub mod Discovery
use t.Prelude.{
  ℕ, Bool, true, false, not, Option, none, some, List, [], ◌∷◌, ◌++◌, Outcome, ok, err, panic,
  ◌>>=◌, ◌-◌, ◌%◌, same, ◌==◌, if◌then◌else◌, Map,
}
use t.Gateway.Apex.{Where, https_name, with_port}
use t.Multiplexer.Config.{Config}
use t.Multiplexer.Link.{Link}
use t.Multiplexer.Protocol.Registry.{find}
use t.State.PeerMap.{PeerMap, PeerError}
use t.Client.{
  Scheme, http_scheme, https_scheme, tcp_scheme, other_scheme, HandshakeError, peer_negotiation,
  register_server,
}
use t.Client.Commands.{Target}

-- "http" and "tcp"
abbrev http_text : List ℕ
http_text = 104 ∷ 116 ∷ 116 ∷ 112 ∷ []

abbrev tcp_text : List ℕ
tcp_text = 116 ∷ 99 ∷ 112 ∷ []

unfoldable pub scheme_of : List ℕ → Scheme
scheme_of name =
    if same name http_text
    then http_scheme
    else if same name https_name
    then https_scheme
    else if same name tcp_text
    then tcp_scheme
    else other_scheme

-- A Go `int`: `negsuc n` is -(n + 1).
pub data ℤ : Type 0 where
  pos : ℕ → ℤ
  negsuc : ℕ → ℤ

-- `protocol.Protocol(opts.Proto)`: the lowest eight bits.
unfoldable pub proposed : ℤ → ℕ
proposed (pos n) = n % 256
proposed (negsuc n) = 255 - n % 256

pub record TunnelOpts : Type 0 where
  pub forward : List ℕ
  pub server : List ℕ
  pub proto : ℤ
  pub overwrite : Bool

pub data TunnelError (E F : Type 0) : Type 0 where
  parsing_forward : F → TunnelError E F
  unsupported_scheme : TunnelError E F
  discovering : F → TunnelError E F
  non_200 : ℕ → TunnelError E F
  decoding_where : F → TunnelError E F
  selecting_dialer : TunnelError E F
  connecting_peer : F → TunnelError E F
  negotiating : HandshakeError F → TunnelError E F
  registering : PeerError E → TunnelError E F
  timed_out : TunnelError E F

-- A fatal error of a step of `Tunnel`.
abbrev pub fatal :
    {A E F W : Type 0} → (W → TunnelError E F) → Outcome W A → Outcome (TunnelError E F) A
fatal as_error (ok a) = ok a
fatal as_error (err e) = err (as_error e)
fatal as_error panic = panic

abbrev pub check_scheme : {E F : Type 0} → Scheme → Outcome (TunnelError E F) (Unit {0})
check_scheme other_scheme = err unsupported_scheme
check_scheme _ = ok tt

abbrev check_status : {E F : Type 0} → ℕ → Outcome (TunnelError E F) (Unit {0})
check_status status = if not (status == 200) then err (non_200 status) else ok tt

abbrev pub registered :
    {E F P : Type 0} → PeerMap P × Option (PeerError E) → Outcome (TunnelError E F) (PeerMap P)
registered (s, none) = ok s
registered (s, some e) = err (registering e)

-- The first session that the map tells of; it waits three seconds for one.
abbrev pub notified : {E F P : Type 0} → List P → Outcome (TunnelError E F) P
notified [] = err timed_out
notified (p ∷ rest) = ok p

-- A connection as the negotiation uses it: what the write of a link comes to, the read of the
-- reply, and the decoding of the name behind it.
pub record Handshake (F : Type 0) : Type 0 where
  pub written : Outcome F ℕ
  pub got : Outcome F (List ℕ)
  pub named : Outcome F (List ℕ)

-- "/where"
abbrev pub where_path : List ℕ
where_path = 47 ∷ 119 ∷ 104 ∷ 101 ∷ 114 ∷ 101 ∷ []

-- "https://"
abbrev pub https_prefix : List ℕ
https_prefix = https_name ++ 58 ∷ 47 ∷ 47 ∷ []

-- A running tunnel: its sessions, the one with the server, the host name that it was given, and the host that
-- requests to the target bear.
pub record Tunnelled (P : Type 0) : Type 0 where
  pub sessions : PeerMap P
  pub peer : P
  pub hostname : List ℕ
  pub host_header : List ℕ

-- The error of parsing the given name is dropped: the URL is nil then.
abbrev pub header_host :
    {E F : Type 0} → Bool → Target → Outcome F Target → Outcome (TunnelError E F) (List ℕ)
header_host false u own = ok u.host
header_host true u (ok own) = ok own.host
header_host true u (err e) = panic
header_host true u panic = panic

-- The address of the server, by its domain. `get_page` is a GET request, with the status and the body
-- that answer it, `decode_where` is JSON, and `decimal` is `%d`.
module _ {E F : Type 0} (decimal : ℕ → List ℕ) (get_page : List ℕ → Outcome F (ℕ × List ℕ))
    (decode_where : List ℕ → Outcome F Where) where
  unfoldable pub discover : List ℕ → Outcome (TunnelError E F) (List ℕ)
  discover server = do
    answer ← fatal discovering (get_page (https_prefix ++ (server ++ where_path)))
    _ ← check_status answer.0
    w ← fatal decoding_where (decode_where answer.1)
    ok (with_port decimal w.addr w.port)

-- `dialers` is the registry of dialers, which are called with an address; a dialled connection is given
-- with what the negotiation on it comes to.
module _ {C D E F P : Type 0} (registry : Map (Config C → Outcome E P)) (closes : P → ℕ → Bool)
    (dialers : Map D) (dial : D → List ℕ → Outcome F (C × Handshake F))
    (parse_url : List ℕ → Outcome F Target) where
  -- `Tunnel`; `found` is the address that is discovered.
  unfoldable pub tunnel :
      TunnelOpts → Outcome (TunnelError E F) (List ℕ) → Outcome (TunnelError E F) (Tunnelled P)
  unfolding proposed
  tunnel opts found = do
    u ← fatal parsing_forward (parse_url opts.forward)
    _ ← check_scheme (scheme_of u.scheme)
    addr ← found
    d ← fatal (λ _. selecting_dialer) (find dialers (proposed opts.proto))
    near ← fatal connecting_peer (dial d addr)
    agreed ←
        fatal negotiating
          (peer_negotiation (proposed opts.proto) near.1.written near.1.got near.1.named)
    s ← registered (register_server registry closes near.0 agreed.0)
    p ← notified s.notify
    host ← header_host opts.overwrite u (parse_url agreed.1)
    ok (record { sessions = s; peer = p; hostname = agreed.1; host_header = host })
