-- ===== src/Acme/Certificates/Transfer.antt =====
-- acme/acme.go: certificates from one node to another, and the key that is imported by itself.
use t.Prelude.{
  Bool, true, false, ◌≡◌, refl, ◌⊎◌, inl, inr, Option, none, some, ok, err, Outcome-cases, arith,
}
use t.Acme.{Text, AcmeError, no_pkey, Bundle, CertManager, Library, pem_to_key}
use t.Acme.Certificates.{
  join, import_private_key, export_private_key, import_bundle, export_bundle, get_certificate,
}

module _ {E K A C : Type 0} (lib : Library E K A C) where
  -- An import of a bundle that ends without an error: the manager then gives out that bundle and
  -- the certificate that the bundle makes, and its account is as it was.
  pub import_bundle_ok :
      (saved : Option E) (bundle : Bundle) (persist : Bool) (c : CertManager K A C)
      → (import_bundle lib saved bundle persist c).1 ≡ ok tt
      → let d = (import_bundle lib saved bundle persist c).0 in
        (export_bundle {E = E} d ≡ ok bundle)
        × ((cert : C) × (lib.key_pair (join bundle.chain) bundle.private_key ≡ ok cert)
            × (get_certificate d ≡ some cert))
        × (d.account ≡ c.account)
        × (d.has_acc ≡ c.has_acc)
  unfolding import_bundle export_bundle get_certificate
  import_bundle_ok saved bundle persist c h =
      elim (Outcome-cases (pem_to_key lib bundle.private_key)) [
        | inl (k, parsing) ↦
            elim (Outcome-cases (lib.key_pair (join bundle.chain) bundle.private_key)) [
              | inl (cert, pairing) ↦ ground (arith, parsing, pairing)
              | inr (inl (e, failing)) ↦ ground (arith, parsing, failing, h)
              | inr (inr failing) ↦ ground (arith, parsing, failing, h)
            ]
        | inr (inl (e, failing)) ↦ ground (arith, failing, h)
        | inr (inr failing) ↦ ground (arith, failing, h)
      ]

  settled :
      (saved : Option E) (bundle : Bundle) (persist : Bool) (c : CertManager K A C)
      (e : AcmeError E)
      → (k : K) (cert : C) → pem_to_key lib bundle.private_key ≡ ok k
      → lib.key_pair (join bundle.chain) bundle.private_key ≡ ok cert
      → (import_bundle lib saved bundle persist c).1 ≡ err e
      → (persist ≡ true) × ((w : E) × (saved ≡ some w))
  unfolding import_bundle
  settled none bundle persist c e k cert parsing pairing h = ground (arith, parsing, pairing, h)
  settled (some w) bundle persist c e k cert parsing pairing h =
      (ground (arith, parsing, pairing, h), (w, refl))

  -- An import of a bundle that ends with an error leaves the manager as it was, unless what failed
  -- is writing the file.
  pub import_bundle_error :
      (saved : Option E) (bundle : Bundle) (persist : Bool) (c : CertManager K A C)
      (e : AcmeError E)
      → (import_bundle lib saved bundle persist c).1 ≡ err e
      → ((import_bundle lib saved bundle persist c).0 ≡ c)
        ⊎ ((persist ≡ true) × ((w : E) × (saved ≡ some w)))
  unfolding import_bundle
  import_bundle_error saved bundle persist c e h =
      elim (Outcome-cases (pem_to_key lib bundle.private_key)) [
        | inl (k, parsing) ↦
            elim (Outcome-cases (lib.key_pair (join bundle.chain) bundle.private_key)) [
              | inl (cert, pairing) ↦
                  inr (settled saved bundle persist c e k cert parsing pairing h)
              | inr (inl (f, failing)) ↦ inl (ground (arith, parsing, failing, h))
              | inr (inr failing) ↦ ground (arith, parsing, failing, h)
            ]
        | inr (inl (f, failing)) ↦ inl (ground (arith, failing, h))
        | inr (inr failing) ↦ ground (arith, failing, h)
      ]

  -- A private key that is imported by itself, at a manager without one, cannot be exported: the
  -- manager still says that it has none.
  pub import_private_key_stranded :
      (pem : Text) (c : CertManager K A C)
      → c.has_cert_pkey ≡ false
      → (import_private_key lib pem c).1 ≡ ok tt
      → let d = (import_private_key lib pem c).0 in
        ((k : K) × (d.cert_pkey ≡ some k)) × (export_private_key lib d ≡ err no_pkey)
  unfolding import_private_key export_private_key
  import_private_key_stranded pem c fresh h = elim (Outcome-cases (pem_to_key lib pem)) [
    | inl (k, parsing) ↦ ((k, ground (arith, parsing, fresh)), ground (arith, parsing, fresh))
    | inr (inl (f, failing)) ↦ ground (arith, failing, h)
    | inr (inr failing) ↦ ground (arith, failing, h)
  ]
