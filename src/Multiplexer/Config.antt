-- ===== src/Multiplexer/Config.antt =====
-- multiplexer/const.go: what a session is set up from.
use t.Prelude.{ℕ, Bool, true, false, not, Option, none, some, Outcome, ◌>>◌, guard, ◌==◌}

-- `C` is the type of the connections. The logger is only tested for `nil`.
pub record Config (C : Type 0) : Type 0 where
  pub has_logger : Bool
  pub conn : Option C
  pub peer : ℕ
  pub initiator : Bool
  pub wait : ℕ

pub data ConfigError : Type 0 where
  nil_logger nil_conn zero_peer : ConfigError

abbrev is_some : {C : Type 0} → Option C → Bool
is_some none = false
is_some (some c) = true

unfoldable pub validate : {C : Type 0} → Config C → Outcome ConfigError (Unit {0})
validate c = do
  guard c.has_logger nil_logger
  guard (is_some c.conn) nil_conn
  guard (not (c.peer == 0)) zero_peer
