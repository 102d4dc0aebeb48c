-- ===== src/Setup.antt =====
-- cmd/server/ (config.go and authz.go), server/config.go, and `New` of server/server.go: what a node
-- starts from.
pub mod Names
pub mod Access
pub mod Creation
pub mod Start
pub mod Samples
use t.Prelude.{
  ℕ, ◌-◌, ◌+◌, Bool, true, false, not, ◌&&◌, ◌||◌, Option, none, some, String, List, [], ◌∷◌, ◌++◌,
  Outcome, ok, err, panic, length, drop, same, leb, ◌==◌, if◌then◌else◌,
}
use t.Acme.{Text}
use t.Acme.Requests.{dot, star}
use t.Multiplexer.Protocol
use t.Server.Meta.{Meta, marshal}
use t.Server.Routing.{Router}
use t.State.PeerMap.{new_peer_map}

-- What `getConfig` reads of the file, as far as it changes it.
pub record Loaded : Type 0 where
  pub web_domain : Text
  pub zone : Text
  pub protocol : ℕ

pub record ConfigBundle : Type 0 where
  pub web_domain : Text
  pub acme_domain : Text
  pub root_zone : Text
  pub protocol : ℕ

unfoldable pub get_config : Loaded → ConfigBundle
get_config c = record {
  web_domain = c.web_domain;
  acme_domain = star ∷ dot ∷ c.web_domain;
  root_zone = c.zone;
  protocol = if c.protocol == Protocol.unknown then Protocol.quic else c.protocol;
}

-- `strings.HasSuffix`
unfoldable pub has_suffix : Text → Text → Bool
has_suffix s suffix =
    leb (length suffix) (length s) && same (drop (length s - length suffix) s) suffix

-- The error holds the server name.
unfoldable pub check_client_sni : Text → Text → Option Text
unfolding has_suffix
check_client_sni domain name = if not (has_suffix name domain) then some name else none

pub data SanError : Type 0 where
  not_exactly_one : SanError
  missing_name : Text → SanError

unfoldable pub find_name : Text → List Text → Bool
find_name required [] = false
find_name required (name ∷ names) = same name required || find_name required names

-- The certificates of the peer, by the names in each.
unfoldable pub check_peer_san : Text → List (List Text) → Option SanError
unfolding find_name
check_peer_san required [] = some not_exactly_one
check_peer_san required (names ∷ []) =
    if not (find_name required names) then some (missing_name required) else none
check_peer_san required (names ∷ (more ∷ others)) = some not_exactly_one

-- The configuration of a server: which of its parts are there, and what `New` reads of the others.
pub record Config : Type 0 where
  pub has_context : Bool
  pub has_logger : Bool
  pub has_peer_tls_listener : Bool
  pub has_peer_quic_listener : Bool
  pub has_peer_tls_config : Bool
  pub has_client_tls_listener : Bool
  pub has_client_quic_listener : Bool
  pub has_cert_manager : Bool
  pub domain : Text
  pub advertise_addr : String
  pub peer_port : ℕ
  pub protocol : ℕ
  pub respond_only : Bool
  pub keyring : List Text

pub data CreateError (E : Type 0) : Type 0 where
  nil_context nil_logger nil_peer_tls_listener nil_peer_quic_listener : CreateError E
  nil_peer_tls_config nil_client_tls_listener nil_client_quic_listener : CreateError E
  nil_cert_manager empty_domain no_keyring : CreateError E
  decoding_keyring : E → CreateError E
  creating_keyring : E → CreateError E

unfoldable pub validate : {E : Type 0} → Config → Option (CreateError E)
validate c =
    if not c.has_context
    then some nil_context
    else if not c.has_logger
    then some nil_logger
    else if not c.has_peer_tls_listener
    then some nil_peer_tls_listener
    else if not c.has_peer_quic_listener
    then some nil_peer_quic_listener
    else if not c.has_peer_tls_config
    then some nil_peer_tls_config
    else if not c.has_client_tls_listener
    then some nil_client_tls_listener
    else if not c.has_client_quic_listener
    then some nil_client_quic_listener
    else if not c.has_cert_manager
    then some nil_cert_manager
    else if length c.domain == 0
    then some empty_domain
    else none

-- What `New` makes: the state that it routes by, and what it says of itself in the gossip.
pub record Created (P : Type 0) : Type 0 where
  pub router : Router P
  pub meta : Meta
  pub meta_bytes : List ℕ

-- What the node `self` says of itself.
abbrev pub own_meta : ℕ → Config → Meta
own_meta self c = record {
  connect_ip = c.advertise_addr;
  connect_port = c.peer_port;
  peer_id = self;
  protocol = c.protocol;
  respond_only = c.respond_only;
}

-- The node `self` before it has met any other.
abbrev pub new_router : {P : Type 0} → ℕ → Router P
new_router self = record {
  id = self;
  clients = new_peer_map self;
  peers = new_peer_map self;
  graph = [];
  cached = none;
  updates = [];
}

-- `decode` is that of base64, `new_keyring` that of the gossip library.
module _ {E : Type 0} (decode : Text → Outcome E Text)
    (new_keyring : List Text → Outcome E (Unit {0})) where
  abbrev add_key :
      Outcome E Text → Outcome (CreateError E) (List Text) → Outcome (CreateError E) (List Text)
  add_key (ok key) (ok keys) = ok (key ∷ keys)
  add_key (ok key) (err e) = err e
  add_key (ok key) panic = panic
  add_key (err e) rest = err (decoding_keyring e)
  add_key panic rest = panic

  unfoldable pub decode_keys : List Text → Outcome (CreateError E) (List Text)
  decode_keys [] = ok []
  decode_keys (d ∷ ds) = add_key (decode d) (decode_keys ds)

  abbrev made_keyring : Outcome E (Unit {0}) → Outcome (CreateError E) (Unit {0})
  made_keyring (ok u) = ok tt
  made_keyring (err e) = err (creating_keyring e)
  made_keyring panic = panic

  abbrev make_keyring : Outcome (CreateError E) (List Text) → Outcome (CreateError E) (Unit {0})
  make_keyring (ok []) = err no_keyring
  make_keyring (ok (key ∷ keys)) = made_keyring (new_keyring (key ∷ keys))
  make_keyring (err e) = err e
  make_keyring panic = panic

  module _ {P : Type 0} (parse_ip : String → Option (List ℕ)) (self : ℕ) where
    abbrev described : Config → Outcome (Unit {0}) (List ℕ) → Outcome (CreateError E) (Created P)
    described c (ok b) =
        ok (record { router = new_router self; meta = own_meta self c; meta_bytes = b })
    described c _ = panic

    abbrev with_keyring :
        Config → Outcome (CreateError E) (Unit {0}) → Outcome (CreateError E) (Created P)
    with_keyring c (ok u) = described c (marshal parse_ip (own_meta self c))
    with_keyring c (err e) = err e
    with_keyring c panic = panic

    abbrev validated : Config → Option (CreateError E) → Outcome (CreateError E) (Created P)
    validated c (some e) = err e
    validated c none = with_keyring c (make_keyring (decode_keys c.keyring))

    -- `New`; `self` is the random identifier.
    unfoldable pub new_server : Config → Outcome (CreateError E) (Created P)
    unfolding validate decode_keys marshal new_peer_map
    new_server c = validated c (validate c)
