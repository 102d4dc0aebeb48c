-- ===== src/Setup/Start.antt =====
-- cmd/server/main.go: what the flags and the configuration make of a node, up to its start.
pub mod Listeners
pub mod Ports
mod Runs
use t.Prelude.{
  ℕ, Bool, true, not, Option, String, List, [], ◌∷◌, Outcome, ok, err, panic, ◌>>=◌, ◌==◌,
  if◌then◌else◌,
}
use t.Acme.{Text}
use t.Gateway.Apex.{ApexServer, visible_domain, new_apex}
use t.Multiplexer.Alpn
use t.Gateway.{listen_for}
use t.Setup.{ConfigBundle, Config, CreateError, Created, new_server}

abbrev pub default_peer_port : ℕ
default_peer_port = 1111

abbrev pub default_gossip_port : ℕ
default_gossip_port = 12345

pub record Flags : Type 0 where
  pub gateway_port : ℕ
  pub peer_port : ℕ
  pub gossip_port : ℕ
  pub debug : Bool

-- What `main` reads of the configuration.
pub record Settings : Type 0 where
  pub bundle : ConfigBundle
  pub peer_port : ℕ
  pub gossip_port : ℕ
  pub bind_addr : String
  pub advertise_addr : String
  pub respond_only : Bool
  pub keyring : List Text

-- A flag counts if it is not at its default.
unfoldable pub override : Flags → Settings → Settings
override f s = record s {
  peer_port = if not (f.peer_port == default_peer_port) then f.peer_port else s.peer_port;
  gossip_port = if not (f.gossip_port == default_gossip_port) then f.gossip_port else s.gossip_port;
}

-- The ports that the listeners have.
pub record Bound : Type 0 where
  pub peer_quic : ℕ
  pub client_quic : ℕ
  pub peer_tls : ℕ
  pub gateway : ℕ

pub data StartError (E F : Type 0) : Type 0 where
  preparing : F → StartError E F
  listening : F → StartError E F
  creating : CreateError E → StartError E F
  setting_up_gateway : F → StartError E F

-- The two receivers of `alpnMux`: connections of clients, and those for the gateway.
abbrev pub to_clients : ℕ
to_clients = 0

abbrev pub to_gateway : ℕ
to_gateway = 1

unfoldable pub alpn_table : List (List ℕ × ℕ)
unfolding listen_for
alpn_table =
    listen_for to_gateway (Alpn.raw_name ∷ Alpn.http_name ∷ Alpn.unknown_name ∷ [])
      (listen_for to_clients (Alpn.multiplexer_name ∷ []) [])

-- A started node: the server, the gateway's main page, and where it listens.
pub record Node (P : Type 0) : Type 0 where
  pub server : Created P
  pub apex : ApexServer
  pub bound : Bound

-- What the system answers to the four listeners of `main`, in their order: the port that each has, by
-- the address and the port that it is asked for, or an error.
pub record System (F : Type 0) : Type 0 where
  pub peer_quic : String → ℕ → Outcome F ℕ
  pub client_quic : String → ℕ → Outcome F ℕ
  pub peer_tls : String → ℕ → Outcome F ℕ
  pub gateway : String → ℕ → Outcome F ℕ

-- A fatal error of a step of `main`.
abbrev pub fatal :
    {A E F W : Type 0} → (W → StartError E F) → Outcome W A → Outcome (StartError E F) A
fatal as_error (ok a) = ok a
fatal as_error (err e) = err (as_error e)
fatal as_error panic = panic

-- The peers' port is asked for over UDP and over TCP, and so is the gateway's.
unfoldable pub listen_all :
    {E F : Type 0} → System F → String → ℕ → ℕ → Outcome (StartError E F) Bound
listen_all os bind peer gateway = do
  qp ← fatal listening (os.peer_quic bind peer)
  qc ← fatal listening (os.client_quic bind gateway)
  p ← fatal listening (os.peer_tls bind peer)
  g ← fatal listening (os.gateway bind gateway)
  ok (record { peer_quic = qp; client_quic = qc; peer_tls = p; gateway = g })

-- The port that the server is told: a port left to the system is that of the TLS listener.
unfoldable pub told_port : ℕ → Bound → ℕ
told_port asked b = if asked == 0 then b.peer_tls else asked

-- What `main` gives to `New` of the server.
unfoldable pub server_config : (ℕ → Text) → ℕ → Settings → Bound → Config
unfolding told_port visible_domain
server_config decimal gateway_port s b = record {
  has_context = true;
  has_logger = true;
  has_peer_tls_listener = true;
  has_peer_quic_listener = true;
  has_peer_tls_config = true;
  has_client_tls_listener = true;
  has_client_quic_listener = true;
  has_cert_manager = true;
  domain = visible_domain decimal s.bundle.web_domain gateway_port;
  advertise_addr = s.advertise_addr;
  peer_port = told_port s.peer_port b;
  protocol = s.bundle.protocol;
  respond_only = s.respond_only;
  keyring = s.keyring;
}

-- `decimal` is `%d`; `decode`, `new_keyring`, `parse_ip` and `self` are those of `new_server`.
module _ {E F P : Type 0} (decimal : ℕ → Text) (decode : Text → Outcome E Text)
    (new_keyring : List Text → Outcome E (Unit {0})) (parse_ip : String → Option (List ℕ))
    (self : ℕ) (os : System F) where
  -- `main`, up to the start of its goroutines. `prepared` is what the steps before the listeners come
  -- to (logs, certificates, the certificate manager), the last two what parsing the templates of the
  -- main page comes to.
  unfoldable pub main :
      Flags
      → Settings
      → Outcome F (Unit {0})
      → Outcome F (Unit {0})
      → Outcome F (Unit {0})
      → Outcome (StartError E F) (Node P)
  unfolding override listen_all server_config new_server new_apex
  main f loaded prepared first second = do
    let s = override f loaded
    _ ← fatal preparing prepared
    b ← listen_all os s.bind_addr s.peer_port f.gateway_port
    m ←
        fatal creating
          (new_server decode new_keyring parse_ip self (server_config decimal f.gateway_port s b))
    a ← fatal setting_up_gateway (new_apex decimal s.bundle.web_domain f.gateway_port first second)
    ok (record { server = m; apex = a; bound = b })
