-- ===== src/Client/Commands.antt =====
-- client/connect.go and forward.go: the commands of a visitor. `Connect` joins a connection to the
-- gateway with the terminal, `Forward` one with each local connection.
pub mod Reach
use t.Prelude.{
  ℕ, Bool, Option, none, some, List, [], ◌∷◌, ◌++◌, Outcome, ok, err, panic, same, if◌then◌else◌,
}
use t.Multiplexer.Alpn
use t.Gateway.Apex.{colon, https_name}

-- What is read of a parsed URL; `host` is the host name with the port, as it was written.
pub record Target : Type 0 where
  pub scheme : List ℕ
  pub host : List ℕ
  pub hostname : List ℕ
  pub port : List ℕ

-- `fmt.Sprintf("%s:%s", hostname, port)`
abbrev pub join_port : List ℕ → List ℕ → List ℕ
join_port hostname port = hostname ++ colon ∷ port

-- "443"
abbrev pub default_port : List ℕ
default_port = 52 ∷ 52 ∷ 51 ∷ []

-- What `getConn` dials: the address, the protocols that it offers, and whether the certificate
-- goes unchecked.
pub record TlsDial : Type 0 where
  pub addr : List ℕ
  pub protos : List (List ℕ)
  pub insecure : Bool

unfoldable pub get_conn : Bool → Target → TlsDial
get_conn debug u = record {
  addr = join_port u.hostname (elim u.port [ [] ↦ default_port | _ ↦ u.port ]);
  protos = Alpn.raw_name ∷ [];
  insecure = debug;
}

-- What ends a command.
pub data CommandError (F : Type 0) : Type 0 where
  parsing_target : F → CommandError F
  unsupported_scheme : List ℕ → CommandError F
  listening : F → CommandError F
  connecting : F → CommandError F

-- The start of both commands.
unfoldable pub check_target : {F : Type 0} → Outcome F Target → Outcome (CommandError F) Target
check_target (ok u) = if same u.scheme https_name then ok u else err (unsupported_scheme u.scheme)
check_target (err e) = err (parsing_target e)
check_target panic = panic

module _ {C F : Type 0} (dial : TlsDial → Outcome F C) where
  abbrev dialled : Outcome F C → Outcome (CommandError F) C
  dialled (ok c) = ok c
  dialled (err e) = err (connecting e)
  dialled panic = panic

  abbrev connect_to : Bool → Outcome (CommandError F) Target → Outcome (CommandError F) C
  connect_to debug (ok u) = dialled (dial (get_conn debug u))
  connect_to debug (err e) = err e
  connect_to debug panic = panic

  -- `Connect`, up to the copying: the connection that it copies to and from.
  unfoldable pub connect : Bool → Outcome F Target → Outcome (CommandError F) C
  unfolding check_target get_conn
  connect debug parsed = connect_to debug (check_target parsed)

-- What becomes of a local connection.
pub data Forwarded (C L : Type 0) : Type 0 where
  closed_local : L → Forwarded C L
  joined : L → C → Forwarded C L

module _ {C L : Type 0} where
  abbrev forward_one : L → Option C → Forwarded C L
  forward_one l (some c) = joined l c
  forward_one l none = closed_local l

  -- The loop of `Forward`: each local connection with what `getConn` gives for it, which is none on an
  -- error, up to the error at which accepting ends, and with it the command.
  unfoldable pub forward_all : List (L × Option C) → List (Forwarded C L)
  forward_all [] = []
  forward_all ((l, dialled) ∷ rest) = forward_one l dialled ∷ forward_all rest
