-- ===== src/Lib.antt =====
-- A model of the tunnel server `t` and its theorems.
--
-- The program. A node serves clients, which open a session with it and get a host name each, and
-- visitors, who connect to the gateway under such a name. The nodes find one another by gossip, hold
-- a session with each other, and tell each other which clients they serve, so that a visitor's
-- connection reaches its client through the node that the client is connected to. One node, the
-- leader, looks after the certificates and gives them to the others.
--
-- The parts, each named for the directory or file that it models:
-- - Prelude: the shared tests, lists, maps and results; a Go call that may fail is an `Outcome`,
--   which is `ok`, `err` or `panic`. Bytes: byte buffers and big-endian words, as the sources use
--   them from Go's standard library.
-- - Multiplexer (multiplexer/): Link is link.go, the 18 bytes that open a handshake (MarshalBinary,
--   UnmarshalBinary, Flip). Protocol is protocol/protocol.go, with the registries of
--   constructor.go and dialer.go; Alpn is alpn/alpn.go; Config is const.go. Channel is channel.go,
--   the hand-over of accepted streams (NewChannel, Put, Close, closeChannel, Run), and Pipe is
--   pipe.go (Connect), each as a step relation on its atomic actions.
-- - Mux (mux/): what the three kinds of session have in common, and Yamux, Mplex and Quic (their
--   making, Start, Null, Direct, Bidirectional, Messaging, the stream handshake, Bye). Dialing is
--   dialYamux, dialMplex and dialQuic, with what their closers close. Sessions is a session of any
--   kind, with its Bidirectional (multiplexer/peer.go).
-- - Messaging (messaging/): Message is message.go (MarshalBinary, UnmarshalBinary, ReadFrom), Rpc
--   is Pack and Unpack of rpc.go, Streams is the loops `writer` and `reader` of channel.go, Hub its
--   table of streams (Register, forget, write, Announce). Calls is Call and handleRPC of rpc.go as a
--   step relation, and Calls.Pending what a caller is promised.
-- - State (state/): PeerMap is peer_map.go (NewPeer, Remove and the lookups), sequentially, and in
--   Interleaving as the atomic actions of any number of goroutines; Checksum is its CRC64.
--   ConnectedClients is
--   connected_clients.go, and PeerGraph is peer_graph.go (Replace, Remove, Who).
-- - Gateway (gateway/): where a visitor's connection goes (handleConnection and link of gateway.go),
--   the dialling of tunnel_http.go and the status of a failed request. Serving is alpn.go
--   (NewALPNMux, For, Serve, handshake, Accept) as a step relation on its atomic actions. Apex is New
--   of gateway.go, apex.go and redirect.go.
-- - Client (client/): peerNegotiation, alpnCheck and the streams of Tunnel in tunnel.go; Startup is
--   Tunnel from its options to its session, and Commands is Connect and Forward. Cli is main.go of
--   cmd/client/.
-- - Shared: PeerHash of shared/hash.go.
-- - Acme (acme/): the state and operations of CertManager in acme.go; Accounts, Certificates and
--   Requests have the operations, Operations has any order of them, and Interleaving those of several
--   goroutines.
-- - Server (server/): Meta is meta.go; Gossip is who dials whom in gossip.go (shouldReachOut,
--   NotifyJoin, peerReconciliation), Peering is its connectPeer and Ping its AckPayload and
--   NotifyPingComplete; Routing is findPath, Forward and Direct of server.go, with LocalState and
--   MergeRemoteState of gossip.go, and the merge of backgroud.go; Negotiation is peerNegotiation
--   of peers.go and clientNegotiation of clients.go, and Handshakes the four handlers that call
--   them; Events is handlePeerEvents, handleClientEvents, removePeer and NotifyLeave, with
--   openMessaging and the table of messaging streams in Events.Streams; Leader is leader.go
--   (handleMembershipChange, leaderTimer), and Certificates its two checks, with messaging.go and
--   the join branch of LocalState and MergeRemoteState.
-- - Setup: config.go and authz.go of cmd/server/, and validate and New of server/; Start is main.go,
--   from the flags to the start of the node.
-- - Provider: provider/rfc2136.go, the updates of DNS records.
-- Below these, a module is named for what its theorems are about; Runs has their witnesses, and
-- Samples the data that several of those share.
--
-- How they interact. Negotiation reads a Link, looks the protocol up in Protocol.Registry, and ends
-- in NewPeer of State.PeerMap; Peering and Client are the other ends of that exchange. Routing takes
-- the snapshot of the client map into a set of ConnectedClients, whose bytes another node merges
-- into its PeerGraph; findPath asks the client map, the graph and the peer map in turn. A session of
-- Mux sends the bytes of a Link on each new stream, and hands what it accepts to
-- Multiplexer.Channel; Events takes it from there, to Routing or to Messaging.Hub. Gossip asks the
-- peer map whom the node is connected to. Leader takes the snapshot of the peer map. Streams carry
-- the bytes of Message, and Message those of Rpc; Server.Certificates gives what they announce to
-- the operations of Acme.
--
-- How state is modelled. A struct is a record, and a method that changes it takes and gives the
-- record. A `sync.Map` is an association list in the order in which `Range` visits. What a library
-- or the network answers in one call is an argument of the definition. Goroutines that share state
-- are a step relation on their atomic actions: State.PeerMap.Interleaving, Multiplexer.Channel,
-- Multiplexer.Pipe, Messaging.Calls, Gateway.Serving, Acme.Interleaving and Server.Leader. There,
-- an action that would wait is no step, and a run is a list of actions in any order.
--
-- Numbers. An unsigned 64-bit integer is a natural number, and arithmetic on it wraps at 2 ^ 64
-- where the source's does. A length that `make` gets is refused, as a panic, when it is negative as
-- a signed 64-bit integer; memory itself is not bounded. The capacity of a slice is taken to be
-- its length. The reader loop of Messaging.Streams runs forever in the source: its first argument
-- is the number of rounds that are followed, and Messaging.Streams.Delivery states how many it
-- takes for given messages. Every other definition recurses on its input.
--
-- Parameters. The filter of xorfilter and its membership test, the checksum crc64, the parser and
-- printer of IP addresses in `net`, reading from and writing to a connection, the constructors of
-- the session libraries, what dialling and listening come to, the flags as the command-line library
-- reads them, the ACME client, PEM, X.509, JSON and base64, URLs, files, and the DNS library's
-- names, records and exchange. Where a theorem relies on documented behaviour of one of them, that
-- is a named hypothesis, and its witness has a function that meets it.
--
-- Not modelled. The HTTP servers of the gateway, its templates and the reverse proxies, and the
-- settings of the session libraries, which hand everything to libraries; the settings of TLS, the
-- loops of a node that accept sessions; metrics, logs, sockets. The starting of goroutines by a
-- handler, and the channels that only wake another goroutine, are left out.
mod Prelude
mod Bytes
pub mod Multiplexer
pub mod Messaging
pub mod State
mod Shared
pub mod Mux
pub mod Acme
pub mod Server
pub mod Gateway
pub mod Client
pub mod Setup
pub mod Provider
