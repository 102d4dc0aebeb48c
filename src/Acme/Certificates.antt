-- ===== src/Acme/Certificates.antt =====
-- acme/acme.go: the private key of the certificate, and the certificate with its chain.
pub mod Transfer
pub mod Cases
use t.Prelude.{
  ℕ, Bool, true, false, Option, none, some, List, [], ◌∷◌, ◌++◌, Outcome, ok, err, panic,
  if◌then◌else◌,
}
use t.Acme.{
  Text, AcmeError, no_pkey, pkey_exists, no_cert, failed, Bundle, CertManager, Library, Effect,
  wrapped, written, key_to_pem, pem_to_key,
}

-- `strings.Join(parts, "\n")`
abbrev pub join : List Text → Text
join [] = []
join (p ∷ []) = p
join (p ∷ (q ∷ ps)) = p ++ 10 ∷ join (q ∷ ps)

module _ {E K A C : Type 0} (lib : Library E K A C) where
  -- The key is assigned whether or not there is an error; it is nil then. `hasCertPKey` is left as
  -- it is.
  abbrev keep_key : CertManager K A C → Outcome (AcmeError E) K → Effect E K A C (Unit {0})
  keep_key c (ok k) = (record c { cert_pkey = some k }, ok tt)
  keep_key c (err e) = (record c { cert_pkey = none }, err e)
  keep_key c panic = (c, panic)

  unfoldable pub import_private_key : Text → CertManager K A C → Effect E K A C (Unit {0})
  unfolding pem_to_key
  import_private_key pem c =
      if c.has_cert_pkey then (c, err pkey_exists) else keep_key c (pem_to_key lib pem)

  unfoldable pub export_private_key : CertManager K A C → Outcome (AcmeError E) Text
  export_private_key c = if c.has_cert_pkey then key_to_pem lib c.cert_pkey else err no_pkey

  abbrev pair_up :
      Bool → Option E → Bundle → CertManager K A C → K → Outcome E C → Effect E K A C (Unit {0})
  pair_up persist saved bundle c k (ok cert) = (
    record c {
      cert_pkey = some k;
      stored_cert = some cert;
      stored_pem = bundle;
      has_cert = true;
      has_cert_pkey = true;
    },
    if persist then written saved else ok tt,
  )
  pair_up persist saved bundle c k (err e) = (c, err (failed e))
  pair_up persist saved bundle c k panic = (c, panic)

  abbrev with_key :
      Bool
      → Option E
      → Bundle
      → CertManager K A C
      → Outcome (AcmeError E) K
      → Effect E K A C (Unit {0})
  with_key persist saved bundle c (ok k) =
      pair_up persist saved bundle c k (lib.key_pair (join bundle.chain) bundle.private_key)
  with_key persist saved bundle c (err e) = (c, err e)
  with_key persist saved bundle c panic = (c, panic)

  -- `saved` is the error of writing bundle.json, if any.
  unfoldable pub import_bundle :
      Option E → Bundle → Bool → CertManager K A C → Effect E K A C (Unit {0})
  unfolding pem_to_key
  import_bundle saved bundle persist c =
      with_key persist saved bundle c (pem_to_key lib bundle.private_key)

  -- `opened` is the decoded file: none if there is no file, an error if it cannot be read.
  abbrev pub load_bundle : Outcome E (Option Bundle) → CertManager K A C → Effect E K A C (Unit {0})
  load_bundle (ok none) c = (c, err no_cert)
  load_bundle (ok (some bundle)) c = import_bundle none bundle false c
  load_bundle (err e) c = (c, err (failed e))
  load_bundle panic c = (c, panic)

module _ {E K A C : Type 0} where
  unfoldable pub export_bundle : CertManager K A C → Outcome (AcmeError E) Bundle
  export_bundle c = if c.has_cert then ok c.stored_pem else err no_cert

-- `GetCertificatesFunc`; none is its error.
unfoldable pub get_certificate : {K A C : Type 0} → CertManager K A C → Option C
get_certificate c = if c.has_cert then c.stored_cert else none
