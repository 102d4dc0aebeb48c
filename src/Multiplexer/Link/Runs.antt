-- ===== src/Multiplexer/Link/Runs.antt =====
-- The theorems on links at the link of a client that proposes QUIC.
use t.Prelude.{arith}
use t.Multiplexer.Link.{Link, IsLink}

abbrev sample : Link
sample = record { source = 0x0102030405060708; destination = 258; protocol = 3; alpn = 1 }

sample-IsLink : IsLink sample
sample-IsLink = omega arith
