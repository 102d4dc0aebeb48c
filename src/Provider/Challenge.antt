-- ===== src/Provider/Challenge.antt =====
-- acme/acme.go against provider/rfc2136.go: the DNS record that a configured node makes for a challenge.
use t.Prelude.{ℕ, ◌≡◌, refl, true, [], ◌∷◌, ◌++◌, ok, panic}
use mathlib.Core.List.{append_assoc}
use t.Acme.{CertManager, Library}
use t.Acme.Requests.{Answers, Naming, dot, challenge_label, request_names, request_certificate}
use t.Setup.{get_config}
use t.Setup.Names.{configured_names}
use t.Provider.{Text, Rfc2136Config, new_rfc2136_provider, record_text, ttl_and_class}

-- "TXT"
abbrev pub txt : Text
txt = 84 ∷ 88 ∷ 84 ∷ []

-- A node whose web domain lies under the zone of its provider, and a library that qualifies the
-- zone by a dot. Then the record that the provider makes for a challenge of the node's certificate
-- stands under the label for challenges below the common name of that certificate, and has the
-- challenge for its text. A node whose web domain is the zone itself, and whose manager has an
-- account, panics when it requests a certificate, whatever the authority would answer.
pub challenge_below_common :
    {E K A C : Type 0} (lib : Library E K A C) (answers : Answers E K) (m : CertManager K A C)
    (fqdn : Text → Text) (label content : Text) (conf : Rfc2136Config) (protocol : ℕ)
    → m.has_acc ≡ true
    → fqdn conf.zone ≡ conf.zone ++ dot ∷ []
    → let c =
        get_config (record {
          web_domain = label ++ dot ∷ conf.zone;
          zone = conf.zone;
          protocol = protocol;
        }) in
      let own =
        get_config (record { web_domain = conf.zone; zone = conf.zone; protocol = protocol }) in
      (request_certificate lib answers own.acme_domain own.root_zone m ≡ (m, panic))
      × (n : Naming) × (request_names c.acme_domain c.root_zone ≡ ok n)
      × (record_text (new_rfc2136_provider fqdn conf) n.host txt content
          ≡ (challenge_label ++ dot ∷ n.common) ++ dot ∷ (ttl_and_class ++ (txt ++ 32 ∷ content)))
unfolding record_text new_rfc2136_provider request_certificate
challenge_below_common lib answers m fqdn label content conf protocol has_account qualified = (
  rw (has_account, (configured_names label conf.zone protocol).1) refl,
  _,
  (configured_names label conf.zone protocol).0,
  rw qualified (simp append_assoc),
)
