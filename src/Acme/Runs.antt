-- ===== src/Acme/Runs.antt =====
-- The theorems on certificate managers at the library of Acme/Samples.antt.
use t.Prelude.{ℕ, true, false, ◌≡◌, refl, none, some, List, [], ◌∷◌, ok}
use t.Acme.{Bundle, CertManager}
use t.Acme.Certificates.{import_bundle, export_bundle, export_private_key}
use t.Acme.Requests.{Naming, dot, request_names, request_certificate}
use t.Acme.Requests.Outcomes.{request_certificate_ok}
use t.Acme.Samples.{plain, zone, granting}
use t.Acme.Operations.{Operation, create, import_key, import_certificates, request}

abbrev empty_manager : CertManager ℕ ℕ ℕ
empty_manager = record {
  acc_key = none;
  account = 0;
  has_acc = false;
  cert_pkey = none;
  has_cert_pkey = false;
  has_cert = false;
  stored_cert = none;
  stored_pem = record { private_key = []; chain = [] };
}

abbrev with_account : CertManager ℕ ℕ ℕ
with_account = record empty_manager { acc_key = some 7; account = 5; has_acc = true }

abbrev one_bundle : Bundle
one_bundle = record { private_key = 9 ∷ []; chain = (1 ∷ []) ∷ (2 ∷ []) ∷ [] }

request_certificate_ok_example :
    (true ≡ true)
    × ((naming : Naming) × (k : ℕ) × (bundle : Bundle) × (request_names (97 ∷ dot ∷ zone) zone
          ≡ ok naming)
        × (granting.signed k naming.names ≡ ok tt)
        × (granting.chain ≡ ok bundle.chain)
        × (export_bundle {E = ℕ}
              (request_certificate plain granting (97 ∷ dot ∷ zone) zone with_account).0
            ≡ ok bundle))
unfolding request_certificate request_names export_private_key import_bundle
request_certificate_ok_example =
    request_certificate_ok plain granting (97 ∷ dot ∷ zone) zone with_account refl

abbrev several : List (Operation ℕ ℕ ℕ)
several =
    import_key (4 ∷ [])
    ∷ create (ok 7) (λ k. (5, none)) (some 2)
    ∷ request granting (97 ∷ dot ∷ zone) zone
    ∷ import_certificates none one_bundle false
    ∷ []
