-- ===== src/Acme/Requests/Outcomes.antt =====
-- acme/acme.go: what a call of `RequestCertificate` leaves behind.
use t.Prelude.{
  Bool, true, false, ◌≡◌, refl, Option, none, some, List, Outcome, ok, err, panic, >>=-eq-ok,
  if◌then◌else◌,
}
use t.Acme.{Text, AcmeError, Bundle, CertManager, Library, Effect, wrapped, no_account}
use t.Acme.Certificates.{import_bundle, export_bundle, export_private_key}
use t.Acme.Certificates.Transfer.{import_bundle_ok}
use t.Acme.Requests.{
  Answers, Naming, request_names, request_certificate, install, keyed, named, certificate_key,
  make_key, obtain, authorize, order_chain,
}

module _ {E K A C : Type 0} (lib : Library E K A C) (answers : Answers E K)
    (Keeps : CertManager K A C → Type 0)
    (by_import : (saved : Option E) (bundle : Bundle) (c : CertManager K A C)
      → Keeps c
      → Keeps (import_bundle lib saved bundle true c).0)
    (by_key : (k : K) (c : CertManager K A C)
      → Keeps c
      → Keeps (record c { cert_pkey = some k; has_cert_pkey = true })) where
  install-keeps :
      (c : CertManager K A C) (o : Outcome (AcmeError E) Bundle)
      → Keeps c
      → Keeps (install lib answers c o).0
  install-keeps c (ok bundle) v = by_import answers.saved bundle c v
  install-keeps c (err e) v = v
  install-keeps c panic v = v

  keyed-keeps :
      (names : List Text) (r : Effect E K A C K) → Keeps r.0 → Keeps (keyed lib answers names r).0
  keyed-keeps names (c, ok k) v = install-keeps c (obtain lib answers c names k) v
  keyed-keeps names (c, err e) v = v
  keyed-keeps names (c, panic) v = v

  make_key-keeps :
      (c : CertManager K A C) (o : Outcome E K) → Keeps c → Keeps (make_key lib answers c o).0
  make_key-keeps c (ok k) v = by_key k c v
  make_key-keeps c (err e) v = v
  make_key-keeps c panic v = v

  certificate_key-keeps :
      (c : CertManager K A C) (o : Option K) → Keeps c → Keeps (certificate_key lib answers c o).0
  certificate_key-keeps c none v = make_key-keeps c answers.generated v
  certificate_key-keeps c (some k) v = v

  named-keeps :
      (c : CertManager K A C) (o : Outcome (Unit {0}) Naming)
      → Keeps c
      → Keeps (named lib answers c o).0
  named-keeps c (ok naming) v =
      keyed-keeps naming.names (certificate_key lib answers c c.cert_pkey)
        (certificate_key-keeps c c.cert_pkey v)
  named-keeps c (err e) v = v
  named-keeps c panic v = v

  allowed-keeps :
      (c : CertManager K A C) (allowed : Bool) (o : Outcome (Unit {0}) Naming)
      → Keeps c
      → Keeps (if allowed then named lib answers c o else (c, err no_account)).0
  allowed-keeps c true o v = named-keeps c o v
  allowed-keeps c false o v = v

  -- What imports and new keys keep, a request keeps.
  pub request_certificate-keeps :
      (domain zone : Text) (c : CertManager K A C)
      → Keeps c
      → Keeps (request_certificate lib answers domain zone c).0
  unfolding request_certificate
  request_certificate-keeps domain zone c v =
      allowed-keeps c c.has_acc (request_names domain zone) v

wrapped_ok : {E R : Type 0} (o : Outcome E R) {r : R} → wrapped o ≡ ok r → o ≡ ok r
wrapped_ok (ok r) h = cc
wrapped_ok (err e) h = cc
wrapped_ok panic h = cc

module _ {E K A C : Type 0} (lib : Library E K A C) (answers : Answers E K) where
  -- The bundle that a call obtains has the chain that the authority answered.
  obtain-chain :
      (c : CertManager K A C) (names : List Text) (k : K) (bundle : Bundle)
      → obtain lib answers c names k ≡ ok bundle
      → (answers.signed k names ≡ ok tt) × (answers.chain ≡ ok bundle.chain)
  obtain-chain c names k bundle h =
      let (_, signing, rest) = >>=-eq-ok (wrapped (answers.signed k names)) _ h in
      let (pem, exporting, rest') = >>=-eq-ok (export_private_key lib c) _ rest in
      let (chain, ordering, finish) = >>=-eq-ok (order_chain lib answers) _ rest' in
      let (orders, _, authorizing) = >>=-eq-ok (wrapped answers.ordered) _ ordering in
      let (_, _, chaining) = >>=-eq-ok (authorize orders) _ authorizing in
      (wrapped_ok (answers.signed k names) signing, cc (wrapped_ok answers.chain chaining, finish))

  install_ok :
      (c : CertManager K A C) (o : Outcome (AcmeError E) Bundle)
      → (install lib answers c o).1 ≡ ok tt
      → (bundle : Bundle) × (o ≡ ok bundle)
        × (export_bundle {E = E} (install lib answers c o).0 ≡ ok bundle)
  install_ok c (ok bundle) h =
      (bundle, refl, (import_bundle_ok lib answers.saved bundle true c h).0)
  install_ok c (err e) h = cc
  install_ok c panic h = cc

  keyed_ok :
      (names : List Text) (r : Effect E K A C K)
      → (keyed lib answers names r).1 ≡ ok tt
      → (k : K) × (bundle : Bundle) × (answers.signed k names ≡ ok tt)
        × (answers.chain ≡ ok bundle.chain)
        × (export_bundle {E = E} (keyed lib answers names r).0 ≡ ok bundle)
  keyed_ok names (c, ok k) h =
      let (bundle, obtained, exported) = install_ok c (obtain lib answers c names k) h in
      let (signing, chained) = obtain-chain c names k bundle obtained in
      (k, bundle, signing, chained, exported)
  keyed_ok names (c, err e) h = cc
  keyed_ok names (c, panic) h = cc

  named_ok :
      (c : CertManager K A C) (o : Outcome (Unit {0}) Naming)
      → (named lib answers c o).1 ≡ ok tt
      → (naming : Naming) × (k : K) × (bundle : Bundle) × (o ≡ ok naming)
        × (answers.signed k naming.names ≡ ok tt)
        × (answers.chain ≡ ok bundle.chain)
        × (export_bundle {E = E} (named lib answers c o).0 ≡ ok bundle)
  named_ok c (ok naming) h =
      let (k, bundle, signing, chained, exported) =
        keyed_ok naming.names (certificate_key lib answers c c.cert_pkey) h in
      (naming, k, bundle, refl, signing, chained, exported)
  named_ok c (err e) h = cc
  named_ok c panic h = cc

  allowed_ok :
      (c : CertManager K A C) (allowed : Bool) (o : Outcome (Unit {0}) Naming)
      → (if allowed then named lib answers c o else (c, err no_account)).1 ≡ ok tt
      → (allowed ≡ true)
        × ((naming : Naming) × (k : K) × (bundle : Bundle) × (o ≡ ok naming)
            × (answers.signed k naming.names ≡ ok tt)
            × (answers.chain ≡ ok bundle.chain)
            × (export_bundle {E = E}
                  (if allowed then named lib answers c o else (c, err no_account)).0
                ≡ ok bundle))
  allowed_ok c true o h = (refl, named_ok c o h)
  allowed_ok c false o h = cc

  -- A request that ends without an error was made with an account; a key signed the request for
  -- the names of the domain, and the bundle that is then given out has the chain that the authority
  -- answered.
  pub request_certificate_ok :
      (domain zone : Text) (c : CertManager K A C)
      → (request_certificate lib answers domain zone c).1 ≡ ok tt
      → (c.has_acc ≡ true)
        × ((naming : Naming) × (k : K) × (bundle : Bundle) × (request_names domain zone ≡ ok naming)
            × (answers.signed k naming.names ≡ ok tt)
            × (answers.chain ≡ ok bundle.chain)
            × (export_bundle {E = E} (request_certificate lib answers domain zone c).0 ≡ ok bundle))
  unfolding request_certificate
  request_certificate_ok domain zone c h = allowed_ok c c.has_acc (request_names domain zone) h
