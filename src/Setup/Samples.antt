-- ===== src/Setup/Samples.antt =====
-- A configured node, with the domain "a.io" under the zone "io": what it starts from, and its description.
use t.Prelude.{ℕ, true, false, List, [], ◌∷◌, Outcome, ok}
use t.Acme.{Text}
use t.Acme.Samples.{zone}
use t.Setup.{Config, Created, own_meta, new_router}

abbrev pub config : Config
config = record {
  has_context = true;
  has_logger = true;
  has_peer_tls_listener = true;
  has_peer_quic_listener = true;
  has_peer_tls_config = true;
  has_client_tls_listener = true;
  has_client_quic_listener = true;
  has_cert_manager = true;
  domain = zone;
  advertise_addr = "10.0.0.1";
  peer_port = 1111;
  protocol = 3;
  respond_only = false;
  keyring = (5 ∷ []) ∷ [];
}

abbrev pub decode : Text → Outcome ℕ Text
decode t = ok t

abbrev pub keyring_of : List Text → Outcome ℕ (Unit {0})
keyring_of keys = ok tt

abbrev pub described : List ℕ
described =
    10 ∷ 0 ∷ 0 ∷ 1 ∷ 0 ∷ 0 ∷ 0 ∷ 0 ∷ 0 ∷ 0 ∷ 0 ∷ 0 ∷ 0 ∷ 0 ∷ 4 ∷ 87 ∷ 0 ∷ 0 ∷ 0 ∷ 0 ∷ 0 ∷ 0 ∷ 0 ∷ 50
    ∷ 3 ∷ 0 ∷ []

abbrev pub made : Created ℕ
made = record { router = new_router 50; meta = own_meta 50 config; meta_bytes = described }
