-- ===== src/Client/Cli.antt =====
-- cmd/client/main.go: what a command of the client runs, with its options.
use t.Prelude.{ℕ, Bool, Option, none, some, List, [], ◌∷◌, Outcome, ok, err}
use t.Multiplexer.Protocol.{mplex}
use t.Client.Startup.{ℤ, pos, TunnelOpts}

-- "http://127.0.0.1:3000"
abbrev pub default_forward : List ℕ
default_forward =
    104 ∷ 116 ∷ 116 ∷ 112 ∷ 58 ∷ 47 ∷ 47 ∷ 49 ∷ 50 ∷ 55 ∷ 46 ∷ 48 ∷ 46 ∷ 48 ∷ 46 ∷ 49 ∷ 58 ∷ 51 ∷ 48
    ∷ 48 ∷ 48 ∷ []

-- ":5678"
abbrev pub default_listen : List ℕ
default_listen = 58 ∷ 53 ∷ 54 ∷ 55 ∷ 56 ∷ []

abbrev pub default_protocol : ℤ
default_protocol = pos mplex

-- The flags of `tunnel` as they are given; none for one that is not.
pub record TunnelFlags : Type 0 where
  pub server : Option (List ℕ)
  pub forward : Option (List ℕ)
  pub overwrite : Bool
  pub protocol : Option ℤ

-- A command line, as the `cli` library reads it.
pub data CommandLine : Type 0 where
  tunnel_line : TunnelFlags → CommandLine
  connect_line : Option (List ℕ) → CommandLine
  forward_line : Option (List ℕ) → Option (List ℕ) → CommandLine

-- What is called: `Tunnel`, `Connect` with a URL, or `Forward` with a URL and an address to listen
-- at; the last two with the flag `debug`.
pub data Invocation : Type 0 where
  run_tunnel : TunnelOpts → Invocation
  run_connect : Bool → List ℕ → Invocation
  run_forward : Bool → List ℕ → List ℕ → Invocation

-- A flag that has to be given.
pub data CliError : Type 0 where
  missing_where : CliError
  missing_url : CliError

abbrev or_default : {A : Type 0} → A → Option A → A
or_default a none = a
or_default a (some b) = b

unfoldable pub tunnel_opts : TunnelFlags → List ℕ → TunnelOpts
tunnel_opts given server = record {
  forward = or_default default_forward given.forward;
  server = server;
  proto = or_default default_protocol given.protocol;
  overwrite = given.overwrite;
}

run_tunnel_line : TunnelFlags → Option (List ℕ) → Outcome CliError Invocation
unfolding tunnel_opts
run_tunnel_line given none = err missing_where
run_tunnel_line given (some server) = ok (run_tunnel (tunnel_opts given server))

-- `main`, with the flag `debug`.
unfoldable pub cli : Bool → CommandLine → Outcome CliError Invocation
unfolding run_tunnel_line
cli debug (tunnel_line given) = run_tunnel_line given given.server
cli debug (connect_line none) = err missing_url
cli debug (connect_line (some url)) = ok (run_connect debug url)
cli debug (forward_line none listen) = err missing_url
cli debug (forward_line (some url) listen) =
    ok (run_forward debug url (or_default default_listen listen))
