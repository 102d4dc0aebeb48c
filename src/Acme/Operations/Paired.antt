-- ===== src/Acme/Operations/Paired.antt =====
-- acme/acme.go: the stored certificate against the stored bundle.
use t.Prelude.{
  Bool, true, ◌≡◌, refl, inl, inr, Option, some, List, [], ◌∷◌, Outcome, ok, Outcome-cases, arith,
}
use t.Acme.{Text, AccountFile, Bundle, CertManager, Library, pem_to_key, new_manager}
use t.Acme.Accounts.{create_account, import_account}
use t.Acme.Certificates.{join, import_private_key, import_bundle}
use t.Acme.Certificates.Cases.{import_bundle_cases}
use t.Acme.Requests.{Answers, request_certificate}
use t.Acme.Requests.Outcomes.{request_certificate-keeps}
use t.Acme.Operations.{
  Operation, create, import_file, import_key, import_certificates, request, apply, apply_all,
}

module _ {E K A C : Type 0} (lib : Library E K A C) where
  -- The bundle makes the certificate.
  pub record Makes (bundle : Bundle) (stored : Option C) : Type 0 where
    pub key : K
    pub cert : C
    pub parses : pem_to_key lib bundle.private_key ≡ ok key
    pub pairs : lib.key_pair (join bundle.chain) bundle.private_key ≡ ok cert
    pub held : stored ≡ some cert

  -- A certificate that is there is the one that the stored bundle makes.
  abbrev pub IsPaired : CertManager K A C → Type 0
  IsPaired c = c.has_cert ≡ true → Makes c.stored_pem c.stored_cert

  pub import_bundle-IsPaired :
      (saved : Option E) (bundle : Bundle) (persist : Bool) (c : CertManager K A C)
      → IsPaired c
      → IsPaired (import_bundle lib saved bundle persist c).0
  unfolding import_bundle
  import_bundle-IsPaired saved bundle persist c v =
      elim (import_bundle_cases lib saved bundle persist c) [
        | inl (k, cert, parsing, pairing, e) ↦
            rw e
              (λ h. record { key = k; cert = cert; parses = parsing; pairs = pairing; held = refl })
        | inr e ↦ rw e v
      ]

  -- The operations on the account and on the key alone leave the certificate alone.
  SameCertificate : CertManager K A C → CertManager K A C → Type 0
  SameCertificate c d =
      (d.has_cert ≡ c.has_cert) × (d.stored_pem ≡ c.stored_pem) × (d.stored_cert ≡ c.stored_cert)

  SameCertificate-IsPaired :
      (c d : CertManager K A C) → SameCertificate c d → IsPaired c → IsPaired d
  unfolding SameCertificate
  SameCertificate-IsPaired c d (a, b, e) v h = rw (b, e) (v (cc))

  create_account-SameCertificate :
      (generated : Outcome E K) (registered : K → A × Option E) (saved : Option E)
      (c : CertManager K A C)
      → SameCertificate c (create_account lib generated registered saved c).0
  unfolding SameCertificate create_account
  create_account-SameCertificate (ok k) registered saved c = ground arith
  create_account-SameCertificate _ registered saved c = ground arith

  import_account-SameCertificate :
      (updated : K → Text → A × Option E) (saved : Option E) (file : AccountFile) (persist : Bool)
      (c : CertManager K A C)
      → SameCertificate c (import_account lib updated saved file persist c).0
  unfolding SameCertificate import_account
  import_account-SameCertificate updated saved file persist c =
      elim (Outcome-cases (pem_to_key lib file.private_key)) [
        | inl (k, parsing) ↦ ground (arith, parsing)
        | inr (inl (f, failing)) ↦ ground (arith, failing)
        | inr (inr failing) ↦ ground (arith, failing)
      ]

  import_private_key-SameCertificate :
      (pem : Text) (c : CertManager K A C) → SameCertificate c (import_private_key lib pem c).0
  unfolding SameCertificate import_private_key
  import_private_key-SameCertificate pem c = elim (Outcome-cases (pem_to_key lib pem)) [
    | inl (k, parsing) ↦ ground (arith, parsing)
    | inr (inl (f, failing)) ↦ ground (arith, failing)
    | inr (inr failing) ↦ ground (arith, failing)
  ]

  pub create_account-IsPaired :
      (generated : Outcome E K) (registered : K → A × Option E) (saved : Option E)
      (c : CertManager K A C)
      → IsPaired c
      → IsPaired (create_account lib generated registered saved c).0
  create_account-IsPaired generated registered saved c =
      SameCertificate-IsPaired c (create_account lib generated registered saved c).0
        (create_account-SameCertificate generated registered saved c)

  pub request_certificate-IsPaired :
      (answers : Answers E K) (domain zone : Text) (c : CertManager K A C)
      → IsPaired c
      → IsPaired (request_certificate lib answers domain zone c).0
  request_certificate-IsPaired answers domain zone c =
      request_certificate-keeps lib answers IsPaired
        (λ saved bundle d v. import_bundle-IsPaired saved bundle true d v) (λ k d v. v) domain zone
        c

  pub apply-IsPaired :
      (c : CertManager K A C) (o : Operation E K A) → IsPaired c → IsPaired (apply lib c o)
  unfolding apply
  apply-IsPaired c (create generated registered saved) v =
      create_account-IsPaired generated registered saved c v
  apply-IsPaired c (import_file updated saved file persist) v =
      SameCertificate-IsPaired c (import_account lib updated saved file persist c).0
        (import_account-SameCertificate updated saved file persist c) v
  apply-IsPaired c (import_key pem) v =
      SameCertificate-IsPaired c (import_private_key lib pem c).0
        (import_private_key-SameCertificate pem c) v
  apply-IsPaired c (import_certificates saved bundle persist) v =
      import_bundle-IsPaired saved bundle persist c v
  apply-IsPaired c (request answers domain zone) v =
      request_certificate-IsPaired answers domain zone c v

  apply_all-IsPaired :
      (c : CertManager K A C) (os : List (Operation E K A))
      → IsPaired c
      → IsPaired (apply_all lib c os)
  unfolding apply_all
  apply_all-IsPaired c [] v = v
  apply_all-IsPaired c (o ∷ os) v = apply_all-IsPaired (apply lib c o) os (apply-IsPaired c o v)

  -- What a new manager comes to by any operations is paired.
  pub new_manager-IsPaired :
      (zero : A) (os : List (Operation E K A)) → IsPaired (apply_all lib (new_manager zero) os)
  unfolding new_manager
  new_manager-IsPaired zero os = apply_all-IsPaired (new_manager zero) os (λ h. cc)
