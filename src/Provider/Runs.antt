-- ===== src/Provider/Runs.antt =====
-- The theorems on the provider, with the zone "io" and a key "k". A record is its own text, and an answer
-- comes only for a key with a secret.
use t.Prelude.{
  ℕ, ◌≡◌, ◌≢◌, refl, true, false, none, some, Option, [], ◌∷◌, ◌++◌, Outcome, ok, err, panic,
}
use t.Acme.{CertManager}
use t.Acme.Requests.{Naming, dot, challenge_label, request_names, request_certificate}
use t.Acme.Samples.{plain, granting, zone}
use t.Setup.{get_config}
use t.Provider.{
  Text, Rfc2136Config, Client, UpdateMsg, new_rfc2136_provider, record_text, ttl_and_class, update,
  remove,
}
use t.Provider.Challenge.{txt, challenge_below_common}
use t.Provider.Signing.{secret_of, unqualified_fails}

abbrev conf : Rfc2136Config
conf = record {
  tsig_key = 107 ∷ [];
  tsig_algo = 104 ∷ [];
  tsig_secret = 115 ∷ [];
  nameserver = 110 ∷ [];
  zone = zone;
}

-- For names without a dot at their end.
abbrev fqdn : Text → Text
fqdn name = name ++ dot ∷ []

-- A manager with the account 4 and the key 3.
abbrev manager : CertManager ℕ ℕ ℕ
manager = record {
  acc_key = some 3;
  account = 4;
  has_acc = true;
  cert_pkey = none;
  has_cert_pkey = false;
  has_cert = false;
  stored_cert = none;
  stored_pem = record { private_key = []; chain = [] };
}

challenge_below_common_example :
    let c =
      get_config (record { web_domain = (97 ∷ []) ++ dot ∷ zone; zone = zone; protocol = 3 }) in
    let own = get_config (record { web_domain = zone; zone = zone; protocol = 3 }) in
    (request_certificate plain granting own.acme_domain own.root_zone manager ≡ (manager, panic))
    × (n : Naming) × (request_names c.acme_domain c.root_zone ≡ ok n)
    × (record_text (new_rfc2136_provider fqdn conf) n.host txt (99 ∷ [])
        ≡ (challenge_label ++ dot ∷ n.common) ++ dot ∷ (ttl_and_class ++ (txt ++ 32 ∷ 99 ∷ [])))
challenge_below_common_example =
    challenge_below_common plain granting manager fqdn (97 ∷ []) (99 ∷ []) conf 3 refl refl

abbrev new_rr : Text → Outcome ℕ Text
new_rr text = ok text

abbrev answer : Option Text → Outcome ℕ ℕ
answer none = err 7
answer (some secret) = ok 0

abbrev exchange : Client → UpdateMsg Text → Text → Outcome ℕ ℕ
exchange c m server = answer (secret_of m.tsig_key c.tsig_secret)

exchange_refuses :
    (c : Client) (m : UpdateMsg Text) (server : Text)
    → secret_of m.tsig_key c.tsig_secret ≡ none
    → (e : ℕ) × (exchange c m server ≡ err e)
exchange_refuses c m server unknown = (7, rw unknown refl)

unqualified_fails_example :
    let r = new_rfc2136_provider fqdn conf in
    (update new_rr 0 exchange r (97 ∷ []) txt (99 ∷ []) ≢ ok true)
    × (remove new_rr 0 exchange r (97 ∷ []) txt (99 ∷ []) ≢ ok true)
unqualified_fails_example =
    unqualified_fails fqdn new_rr 0 exchange conf (97 ∷ []) txt (99 ∷ []) true exchange_refuses
      (λ e. cc)
