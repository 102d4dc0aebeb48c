-- ===== src/Messaging/Calls/Refinement.antt =====
-- messaging/rpc.go: the table and the goroutines of messaging/rpc.go against what callers are promised.
use t.Prelude.{ℕ, ◌≡◌, Option, none, some, List, [], ◌∷◌, All, lookup, insert}
use t.Messaging.Calls.{Phase, writing, waiting, leaving, returned, Handing, Calls}
use t.Messaging.Calls.Pending.{Fate, unasked, asked, ended, Pending, Move}

abbrev fate_of : Option (ℕ × Phase) → Fate
fate_of none = unasked
fate_of (some (key, writing)) = asked key
fate_of (some (key, waiting)) = asked key
fate_of (some (key, leaving r)) = ended key r
fate_of (some (key, returned r)) = ended key r

abbrev inbox_of : List Handing → List (ℕ × List ℕ)
inbox_of [] = []
inbox_of (h ∷ hs) = (h.key, h.reply) ∷ inbox_of hs

-- The promise that the state stands for.
abbrev pub pending : Calls → Pending
pending s = record { fate = λ id. fate_of (lookup id s.calls); inbox = inbox_of s.handing }

abbrev key_of : Option (ℕ × Phase) → Option ℕ
key_of none = none
key_of (some (key, phase)) = some key

abbrev IsHeld : Calls → Handing → Type 0
IsHeld s h = key_of (lookup h.call s.calls) ≡ some h.key

-- A channel in the table, and one that a goroutine holds, is that of the call with that key.
record IsKeyed (s : Calls) : Type 0 where
  pub entries : (key id : ℕ) → lookup key s.table ≡ some id → key_of (lookup id s.calls) ≡ some key
  pub holders : All (IsHeld s) s.handing

-- Calls keep their keys.
abbrev HasSameKeys : Calls → Calls → Type 0
HasSameKeys s t =
    (id key : ℕ) → key_of (lookup id s.calls) ≡ some key → key_of (lookup id t.calls) ≡ some key

-- What a step keeps, and what it comes to.
record Follows (s t : Calls) : Type 0 where
  pub keyed : IsKeyed t
  pub move : Move (pending s) (pending t)

-- The state after `begin`.
abbrev begun : Calls → ℕ → ℕ → Calls
begun s id key = record s {
  table = insert key id s.table;
  calls = insert id (key, writing) s.calls;
}
