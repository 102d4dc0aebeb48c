-- ===== src/Acme/Requests.antt =====
-- acme/acme.go: `RequestCertificate`, and the names that it asks for.
pub mod Names
pub mod Outcomes
use t.Prelude.{
  ℕ, ◌-◌, Bool, true, false, ◌&&◌, Option, none, some, List, [], ◌∷◌, ◌++◌, Outcome, ok, err, panic,
  ◌>>=◌, length, take, same, drop, ◌==◌, leb, if◌then◌else◌,
}
use t.Acme.{
  Text, AcmeError, no_account, missing_challenge, dns_update_failed, failed, Bundle, CertManager,
  Library, Effect, wrapped,
}
use t.Acme.Certificates.{export_private_key, import_bundle}

-- `strings.TrimSuffix`
unfoldable pub trim_suffix : Text → Text → Text
trim_suffix s suffix =
    let n = length s - length suffix in
    if leb (length suffix) (length s) && same (drop n s) suffix then take n s else s

abbrev pub dot : ℕ
dot = 46

abbrev pub star : ℕ
star = 42

-- "_acme-challenge"
abbrev pub challenge_label : Text
challenge_label =
    95 ∷ 97 ∷ 99 ∷ 109 ∷ 101 ∷ 45 ∷ 99 ∷ 104 ∷ 97 ∷ 108 ∷ 108 ∷ 101 ∷ 110 ∷ 103 ∷ 101 ∷ []

-- Where the challenge is put, the common name, and all names of the certificate.
pub record Naming : Type 0 where
  pub host : Text
  pub common : Text
  pub names : List Text

-- The cases on `apex`. A lone star panics at `apex[2:]`.
abbrev name_apex : Text → Text → Text → Outcome (Unit {0}) Naming
name_apex domain zone [] = ok (record { host = challenge_label; common = zone; names = zone ∷ [] })
name_apex domain zone (c ∷ []) =
    if c == star
    then panic
    else ok (record {
      host = challenge_label ++ dot ∷ c ∷ [];
      common = c ∷ dot ∷ zone;
      names = (c ∷ dot ∷ zone) ∷ [];
    })
name_apex domain zone (c ∷ (d ∷ rest)) =
    if c == star
    then ok (record {
      host = challenge_label ++ d ∷ rest;
      common = rest ++ dot ∷ zone;
      names = (rest ++ dot ∷ zone) ∷ domain ∷ [];
    })
    else ok (record {
      host = challenge_label ++ dot ∷ c ∷ d ∷ rest;
      common = c ∷ d ∷ (rest ++ dot ∷ zone);
      names = (c ∷ d ∷ (rest ++ dot ∷ zone)) ∷ [];
    })

unfoldable pub request_names : Text → Text → Outcome (Unit {0}) Naming
unfolding trim_suffix
request_names domain zone = name_apex domain zone (trim_suffix (trim_suffix domain zone) (dot ∷ []))

-- What becomes of one authorization of the order: fetching it, finding its DNS challenge, the
-- update of the DNS record, and the update of the challenge.
pub data Authorized (E : Type 0) : Type 0 where
  done : Authorized E
  fetch_failed : E → Authorized E
  no_dns_challenge : Authorized E
  dns_failed : E → Authorized E
  dns_refused : Authorized E
  challenge_failed : E → Authorized E

-- The loop over the authorizations stops at the first that fails.
unfoldable pub authorize : {E : Type 0} → List (Authorized E) → Outcome (AcmeError E) (Unit {0})
authorize [] = ok tt
authorize (done ∷ auths) = authorize auths
authorize (fetch_failed e ∷ auths) = err (failed e)
authorize (no_dns_challenge ∷ auths) = err missing_challenge
authorize (dns_failed e ∷ auths) = err (failed e)
authorize (dns_refused ∷ auths) = err dns_update_failed
authorize (challenge_failed e ∷ auths) = err (failed e)

-- What the certificate authority, the random numbers and the disk answer in one call: the new key,
-- the request for a key and names, the authorizations of the order, and the chain, each certificate
-- in PEM and trimmed; `saved` is the error of writing bundle.json, if any.
pub record Answers (E K : Type 0) : Type 0 where
  pub generated : Outcome E K
  pub signed : K → List Text → Outcome E (Unit {0})
  pub ordered : Outcome E (List (Authorized E))
  pub chain : Outcome E (List Text)
  pub saved : Option E

module _ {E K A C : Type 0} (lib : Library E K A C) (answers : Answers E K) where
  -- A key is made if there is none.
  abbrev pub make_key : CertManager K A C → Outcome E K → Effect E K A C K
  make_key c (ok k) = (record c { cert_pkey = some k; has_cert_pkey = true }, ok k)
  make_key c (err e) = (c, err (failed e))
  make_key c panic = (c, panic)

  abbrev pub certificate_key : CertManager K A C → Option K → Effect E K A C K
  certificate_key c (some k) = (c, ok k)
  certificate_key c none = make_key c answers.generated

  -- The order and its authorizations, up to the chain.
  abbrev pub order_chain : Outcome (AcmeError E) (List Text)
  order_chain = do auths ← wrapped answers.ordered; _ ← authorize auths; wrapped answers.chain

  -- The request is signed, the key is exported, and the chain is ordered.
  abbrev obtain : CertManager K A C → List Text → K → Outcome (AcmeError E) Bundle
  obtain c names k = do
    _ ← wrapped (answers.signed k names)
    pem ← export_private_key lib c
    chain ← order_chain
    ok (record { private_key = pem; chain = chain })

  abbrev pub install : CertManager K A C → Outcome (AcmeError E) Bundle → Effect E K A C (Unit {0})
  install c (ok bundle) = import_bundle lib answers.saved bundle true c
  install c (err e) = (c, err e)
  install c panic = (c, panic)

  abbrev keyed : List Text → Effect E K A C K → Effect E K A C (Unit {0})
  keyed names (c, ok k) = install c (obtain c names k)
  keyed names (c, err e) = (c, err e)
  keyed names (c, panic) = (c, panic)

  abbrev named : CertManager K A C → Outcome (Unit {0}) Naming → Effect E K A C (Unit {0})
  named c (ok naming) = keyed naming.names (certificate_key c c.cert_pkey)
  named c (err _) = (c, panic)
  named c panic = (c, panic)

  -- `domain` and `zone` are those of the configuration.
  unfoldable pub request_certificate : Text → Text → CertManager K A C → Effect E K A C (Unit {0})
  unfolding authorize
  request_certificate domain zone c =
      if c.has_acc then named c (request_names domain zone) else (c, err no_account)
