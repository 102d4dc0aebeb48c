-- ===== src/Server/Peering.antt =====
-- server/gossip.go: dialling a peer, `connectPeer`.
pub mod Meeting
pub mod Closing
mod Runs
use t.Prelude.{ℕ, Bool, true, Option, none, some, List, Outcome, ok, err, panic, Map}
use t.Multiplexer.Alpn
use t.Mux.Dialing.{Dialled, Dialer}
use t.Multiplexer.Config.{Config}
use t.Multiplexer.Link.{Link}
use t.Multiplexer.Protocol.Registry.{find}
use t.State.PeerMap.{PeerMap, PeerError, crashed, new_peer}
use t.Server.Meta.{Meta}

pub data ConnectError (E F : Type 0) : Type 0 where
  getting_dialer : ConnectError E F
  dialing_peer : F → ConnectError E F
  writing_handshake : F → ConnectError E F
  setting_up : PeerError E → ConnectError E F

-- The link that is sent to a peer; `self` is the identifier of the node.
unfoldable pub peer_link : ℕ → Meta → Link
peer_link self m = record {
  source = self;
  destination = m.peer_id;
  protocol = m.protocol;
  alpn = Alpn.multiplexer;
}

abbrev pub initiator_config : {C : Type 0} → ℕ → Option C → ℕ → Config C
initiator_config wait conn peer = record {
  has_logger = true;
  conn = conn;
  peer = peer;
  initiator = true;
  wait = wait;
}

-- What a dialling leaves: the sessions, the error or none, and what the deferred function closes.
pub record Connected (C X P : Type 0) : Type 0 where
  pub sessions : PeerMap P
  pub error : Option X
  pub closed : Option C

-- The deferred function calls the closer, if there is one, after an error. A panic of `NewPeer` leaves
-- the error nil.
abbrev pub settled :
    {C E F P : Type 0}
    → Option C
    → PeerMap P × Option (PeerError E)
    → Connected C (ConnectError E F) P
settled closer (s, none) = record { sessions = s; error = none; closed = none }
settled closer (s, some crashed) = record {
  sessions = s;
  error = some (setting_up crashed);
  closed = none;
}
settled closer (s, some e) = record { sessions = s; error = some (setting_up e); closed = closer }

-- `dialers` is the registry of dialers, and `written` is what writing the link comes to; how many
-- bytes were taken is not looked at.
module _ {C E F P T : Type 0} (registry : Map (Config C → Outcome E P)) (closes : P → ℕ → Bool)
    (dialers : Map (Dialer C F T)) (wait : ℕ) (s : PeerMap P) (m : Meta) where
  abbrev after_write : Dialled C F T → Outcome F (Unit {0}) → Connected C (ConnectError E F) P
  after_write d (ok _) =
      settled d.closer
        (new_peer registry closes s m.protocol (initiator_config wait d.connector m.peer_id))
  after_write d (err e) = record {
    sessions = s;
    error = some (writing_handshake e);
    closed = d.closer;
  }
  after_write d panic = record { sessions = s; error = some (setting_up crashed); closed = none }

  abbrev after_dial : Outcome F (Unit {0}) → Dialled C F T → Connected C (ConnectError E F) P
  after_dial written d = elim d.error [
    | some e ↦ record { sessions = s; error = some (dialing_peer e); closed = d.closer }
    | none ↦ after_write d written
  ]

  -- Without a dialer the closer is the one that does nothing.
  unfoldable pub connect_peer : Outcome F (Unit {0}) → Connected C (ConnectError E F) P
  connect_peer written = elim (find dialers m.protocol) [
    | ok dial ↦ after_dial written (dial m.connect_ip m.connect_port)
    | _ ↦ record { sessions = s; error = some getting_dialer; closed = none }
  ]
