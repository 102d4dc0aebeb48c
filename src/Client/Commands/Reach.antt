-- ===== src/Client/Commands/Reach.antt =====
-- client/connect.go against gateway/gateway.go, server/clients.go and client/tunnel.go: the way of a raw
-- connection from the command of a visitor to the target of a client.
use t.Multiplexer.Alpn
use t.Multiplexer.Link.{Link}
