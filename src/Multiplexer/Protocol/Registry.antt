-- ===== src/Multiplexer/Protocol/Registry.antt =====
-- multiplexer/constructor.go and dialer.go: the registries, which map a protocol to what the
-- `init` functions of mux/ registered for it.
use t.Prelude.{ℕ, none, some, Outcome, ok, err, ◌==◌, if◌then◌else◌, Map, lookup, insert}
use t.Multiplexer.Protocol.{unknown}

pub data RegistryError : Type 0 where
  unknown_protocol : RegistryError

module _ {C : Type 0} where
  -- `RegisterConstructor`, and `RegisterDialer`
  unfoldable pub register : ℕ → C → Map C → Map C
  register p c reg = insert p c reg

  -- `New`, and `Dialer`
  unfoldable pub find : Map C → ℕ → Outcome RegistryError C
  find reg p = elim (lookup p reg) [
    | none ↦ err unknown_protocol
    | some c ↦ if p == unknown then err unknown_protocol else ok c
  ]
