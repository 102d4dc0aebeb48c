-- ===== src/State/PeerMap.antt =====
-- state/peer_map.go: the sessions with connected peers, or with connected clients.
pub mod Counter
pub mod Interleaving
pub mod Results
pub mod Checksum
use t.Prelude.{
  ℕ, ◌+◌, ◌-◌, ◌%◌, ◌^◌, Bool, true, false, Option, none, some, List, [], ◌∷◌, ◌++◌, Outcome, ok,
  err, panic, if◌then◌else◌, Map, lookup, insert, delete, keys,
}
use t.Multiplexer.Protocol.Registry.{find}
use t.Multiplexer.Config.{Config}

-- `P` is the type of the sessions (`multiplexer.Peer`). `notify` is what waits in the channel of
-- that name, oldest first; a send to it waits while 16 are there.
pub record PeerMap (P : Type 0) : Type 0 where
  pub self : ℕ
  pub peers : Map P
  pub notify : List P
  pub num : ℕ

pub data PeerError (E : Type 0) : Type 0 where
  session_already_established : PeerError E
  unknown_protocol : PeerError E
  construction_failed : E → PeerError E
  closed_after_negotiation : PeerError E
  crashed : PeerError E

module _ {P : Type 0} where
  unfoldable pub new_peer_map : ℕ → PeerMap P
  new_peer_map self = record { self = self; peers = []; notify = []; num = 0 }

  unfoldable pub has : PeerMap P → ℕ → Bool
  has s peer = elim (lookup peer s.peers) [ none ↦ false | some p ↦ true ]

  -- `nil` is `none`.
  unfoldable pub get : PeerMap P → ℕ → Option P
  get s peer = lookup peer s.peers

  -- The keys in the order of `Range`.
  unfoldable pub snapshot : PeerMap P → List ℕ
  snapshot s = keys s.peers

  unfoldable pub len : PeerMap P → ℕ
  len s = s.num

  -- The atomic actions of the methods.
  unfoldable pub store : ℕ → P → PeerMap P → PeerMap P
  store peer p s = record s { peers = insert peer p s.peers }

  unfoldable pub count_up : PeerMap P → PeerMap P
  count_up s = record s { num = (s.num + 1) % 2 ^ 64 }

  -- `atomic.AddUint64(s.num, ^uint64(0))`
  unfoldable pub count_down : PeerMap P → PeerMap P
  count_down s = record s { num = (s.num + (2 ^ 64 - 1)) % 2 ^ 64 }

  unfoldable pub announce : P → PeerMap P → PeerMap P
  announce p s = record s { notify = s.notify ++ p ∷ [] }

  unfoldable pub load_and_delete : ℕ → PeerMap P → PeerMap P
  load_and_delete peer s = record s { peers = delete peer s.peers }

  -- The session on which `Bye` is called, if there is one.
  unfoldable pub remove : PeerMap P → ℕ → PeerMap P × Option P
  unfolding load_and_delete count_down
  remove s peer = elim (lookup peer s.peers) [
    | none ↦ (s, none)
    | some p ↦ (count_down (load_and_delete peer s), some p)
  ]

module _ {P E : Type 0} where
  -- The end of `NewPeer`, once the negotiation is over.
  unfoldable pub settle : ℕ → PeerMap P → Outcome (PeerError E) P → PeerMap P × Option (PeerError E)
  unfolding store count_up announce
  settle peer s (err e) = (s, some e)
  settle peer s panic = (s, some crashed)
  settle peer s (ok p) = (announce p (count_up (store peer p s)), none)

-- What a negotiation comes to: the registered constructor, which `registry` holds, is run, and the
-- session must stay open for `conf.Wait`; `closes` says of a session that it does not.
module _ {P C E : Type 0} (registry : Map (Config C → Outcome E P)) (closes : P → ℕ → Bool) where
  unfoldable pub negotiate : ℕ → Config C → Outcome (PeerError E) P
  unfolding find
  negotiate proto conf = elim (find registry proto) [
    | err e ↦ err unknown_protocol
    | panic ↦ err crashed
    | ok construct ↦ elim (construct conf) [
      | err e ↦ err (construction_failed e)
      | panic ↦ err crashed
      | ok p ↦ if closes p conf.wait then err closed_after_negotiation else ok p
    ]
  ]

  -- `NewPeer` with nothing in between: the new map, and the error or none.
  unfoldable pub new_peer : PeerMap P → ℕ → Config C → PeerMap P × Option (PeerError E)
  unfolding has settle
  new_peer s proto conf =
      if has s conf.peer
      then (s, some session_already_established)
      else settle conf.peer s (negotiate proto conf)
