-- ===== src/Setup/Names.antt =====
-- cmd/server/config.go against acme/acme.go: the certificate that a configured node asks for.
use t.Prelude.{ℕ, ◌≡◌, [], ◌∷◌, ◌++◌, ok, panic}
use t.Acme.{Text}
use t.Acme.Requests.{dot, star, challenge_label, request_names}
use t.Acme.Requests.Names.{request_names-wildcard, request_names-star}
use t.Setup.{get_config}

-- A node whose web domain is a domain under the zone asks for a certificate of that domain and its
-- wildcard, with the challenge below the domain; for one whose web domain is the zone
-- itself, making the names of its certificate panics.
pub configured_names :
    (label zone : Text) (protocol : ℕ)
    → let under =
        get_config
          (record { web_domain = label ++ dot ∷ zone; zone = zone; protocol = protocol }) in
      let own = get_config (record { web_domain = zone; zone = zone; protocol = protocol }) in
      (request_names under.acme_domain under.root_zone
        ≡ ok (record {
          host = challenge_label ++ dot ∷ label;
          common = label ++ dot ∷ zone;
          names = (label ++ dot ∷ zone) ∷ (star ∷ dot ∷ (label ++ dot ∷ zone)) ∷ [];
        }))
      × (request_names own.acme_domain own.root_zone ≡ panic)
unfolding get_config
configured_names label zone protocol = (request_names-wildcard label zone, request_names-star zone)
