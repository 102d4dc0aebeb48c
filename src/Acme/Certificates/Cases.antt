-- ===== src/Acme/Certificates/Cases.antt =====
-- acme/acme.go: what `ImportBundle` and `ImportPrivateKey` leave behind.
use t.Prelude.{Bool, true, ◌≡◌, ◌⊎◌, inl, inr, Option, some, ok, Outcome-cases, arith}
use t.Acme.{Bundle, CertManager, Library, pem_to_key}
use t.Acme.Certificates.{join, import_bundle}

-- The manager with that bundle.
abbrev pub holding : {K A C : Type 0} → Bundle → K → C → CertManager K A C → CertManager K A C
holding bundle k cert c = record c {
  cert_pkey = some k;
  stored_cert = some cert;
  stored_pem = bundle;
  has_cert = true;
  has_cert_pkey = true;
}

module _ {E K A C : Type 0} (lib : Library E K A C) where
  -- The bundle is stored if its key and its chain make a certificate; else nothing changes.
  pub import_bundle_cases :
      (saved : Option E) (bundle : Bundle) (persist : Bool) (c : CertManager K A C)
      → ((k : K) × (cert : C) × (pem_to_key lib bundle.private_key ≡ ok k)
          × (lib.key_pair (join bundle.chain) bundle.private_key ≡ ok cert)
          × ((import_bundle lib saved bundle persist c).0 ≡ holding bundle k cert c))
        ⊎ ((import_bundle lib saved bundle persist c).0 ≡ c)
  unfolding import_bundle
  import_bundle_cases saved bundle persist c =
      elim (Outcome-cases (pem_to_key lib bundle.private_key)) [
        | inl (k, parsing) ↦
            elim (Outcome-cases (lib.key_pair (join bundle.chain) bundle.private_key)) [
              | inl (cert, pairing) ↦
                  inl (k, cert, parsing, pairing, ground (arith, parsing, pairing))
              | inr (inl (f, failing)) ↦ inr (ground (arith, parsing, failing))
              | inr (inr failing) ↦ inr (ground (arith, parsing, failing))
            ]
        | inr (inl (f, failing)) ↦ inr (ground (arith, failing))
        | inr (inr failing) ↦ inr (ground (arith, failing))
      ]
