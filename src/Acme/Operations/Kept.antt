-- ===== src/Acme/Operations/Kept.antt =====
-- acme/acme.go: the flags of a `CertManager` against what they stand for, and its exports.
use t.Prelude.{
  Bool, true, ◌≡◌, ◌≢◌, inl, inr, Option, none, List, [], ◌∷◌, Outcome, ok, err, panic,
  Outcome-cases, Option-cases, arith,
}
use t.Acme.{Text, AccountFile, Bundle, CertManager, Library, pem_to_key, new_manager}
use t.Acme.Accounts.{create_account, import_account, export_account}
use t.Acme.Certificates.{
  import_private_key, import_bundle, export_bundle, export_private_key, get_certificate,
}
use t.Acme.Certificates.Cases.{import_bundle_cases}
use t.Acme.Requests.Outcomes.{request_certificate-keeps}
use t.Acme.Operations.{
  Operation, create, import_file, import_key, import_certificates, request, apply, apply_all,
}

-- What a manager says that it has, it has.
pub record IsWhole {K A C : Type 0} (c : CertManager K A C) : Type 0 where
  pub keeps_account : c.has_acc ≡ true → c.acc_key ≢ none
  pub keeps_key : c.has_cert_pkey ≡ true → c.cert_pkey ≢ none
  pub keeps_certificate : c.has_cert ≡ true → (c.stored_cert ≢ none) × (c.has_cert_pkey ≡ true)

module _ {E K A C : Type 0} (lib : Library E K A C) where
  pub import_bundle-IsWhole :
      (saved : Option E) (bundle : Bundle) (persist : Bool) (c : CertManager K A C)
      → IsWhole c
      → IsWhole (import_bundle lib saved bundle persist c).0
  import_bundle-IsWhole saved bundle persist c v =
      elim (import_bundle_cases lib saved bundle persist c) [
        | inl (k, cert, parsing, pairing, e) ↦ ground (arith, e, v)
        | inr e ↦ rw e v
      ]

  import_account-IsWhole :
      (updated : K → Text → A × Option E) (saved : Option E) (file : AccountFile) (persist : Bool)
      (c : CertManager K A C)
      → IsWhole c
      → IsWhole (import_account lib updated saved file persist c).0
  unfolding import_account
  import_account-IsWhole updated saved file persist c v =
      elim (Outcome-cases (pem_to_key lib file.private_key)) [
        | inl (k, parsing) ↦ ground (arith, parsing, v)
        | inr (inl (f, failing)) ↦ ground (arith, failing, v)
        | inr (inr failing) ↦ ground (arith, failing, v)
      ]

  create_account-IsWhole :
      (generated : Outcome E K) (registered : K → A × Option E) (saved : Option E)
      (c : CertManager K A C)
      → IsWhole c
      → IsWhole (create_account lib generated registered saved c).0
  unfolding create_account
  create_account-IsWhole (ok k) registered saved c v = ground (arith, v)
  create_account-IsWhole (err e) registered saved c v = ground (arith, v)
  create_account-IsWhole panic registered saved c v = ground (arith, v)

  import_private_key-IsWhole :
      (pem : Text) (c : CertManager K A C) → IsWhole c → IsWhole (import_private_key lib pem c).0
  unfolding import_private_key
  import_private_key-IsWhole pem c v = elim (Outcome-cases (pem_to_key lib pem)) [
    | inl (k, parsing) ↦ ground (arith, parsing, v)
    | inr (inl (f, failing)) ↦ ground (arith, failing, v)
    | inr (inr failing) ↦ ground (arith, failing, v)
  ]

  -- Every operation, whatever becomes of it, keeps a manager whole.
  pub apply-IsWhole :
      (c : CertManager K A C) (o : Operation E K A) → IsWhole c → IsWhole (apply lib c o)
  unfolding apply
  apply-IsWhole c (create generated registered saved) v =
      create_account-IsWhole generated registered saved c v
  apply-IsWhole c (import_file updated saved file persist) v =
      import_account-IsWhole updated saved file persist c v
  apply-IsWhole c (import_key pem) v = import_private_key-IsWhole pem c v
  apply-IsWhole c (import_certificates saved bundle persist) v =
      import_bundle-IsWhole saved bundle persist c v
  apply-IsWhole c (request answers domain zone) v =
      request_certificate-keeps lib answers IsWhole
        (λ saved bundle d w. import_bundle-IsWhole saved bundle true d w)
        (λ k d w. ground (arith, w)) domain zone c v

  apply_all-IsWhole :
      (c : CertManager K A C) (os : List (Operation E K A))
      → IsWhole c
      → IsWhole (apply_all lib c os)
  unfolding apply_all
  apply_all-IsWhole c [] v = v
  apply_all-IsWhole c (o ∷ os) v = apply_all-IsWhole (apply lib c o) os (apply-IsWhole c o v)

  pub new_manager-IsWhole : (zero : A) → IsWhole (new_manager {K = K} {C = C} zero)
  unfolding new_manager
  new_manager-IsWhole zero = ground arith

  pub export_account-panic :
      (c : CertManager K A C)
      → ((k : K) → lib.encode_key k ≢ panic)
      → IsWhole c
      → export_account lib c ≢ panic
  unfolding export_account
  export_account-panic c encodes v h = elim (Option-cases c.acc_key) [
    | inl missing ↦ ground (arith, missing, v, h)
    | inr (k, there) ↦ elim (Outcome-cases (lib.encode_key k)) [
      | inl (pem, encoding) ↦ ground (arith, there, encoding, h)
      | inr (inl (e, failing)) ↦ ground (arith, there, failing, h)
      | inr (inr failing) ↦ absurd (encodes k failing)
    ]
  ]

  pub export_private_key-panic :
      (c : CertManager K A C)
      → ((k : K) → lib.encode_key k ≢ panic)
      → IsWhole c
      → export_private_key lib c ≢ panic
  unfolding export_private_key
  export_private_key-panic c encodes v h = elim (Option-cases c.cert_pkey) [
    | inl missing ↦ ground (arith, missing, v, h)
    | inr (k, there) ↦ elim (Outcome-cases (lib.encode_key k)) [
      | inl (pem, encoding) ↦ ground (arith, there, encoding, h)
      | inr (inl (e, failing)) ↦ ground (arith, there, failing, h)
      | inr (inr failing) ↦ absurd (encodes k failing)
    ]
  ]

  -- Whatever operations a new manager goes through, one after another: if the encoding of keys
  -- does not panic, then neither export of a key does, and a manager that exports a bundle has a
  -- certificate to serve.
  pub exports_safe :
      (zero : A) (os : List (Operation E K A)) (bundle : Bundle)
      → ((k : K) → lib.encode_key k ≢ panic)
      → let c = apply_all lib (new_manager zero) os in
        (export_account lib c ≢ panic)
        × (export_private_key lib c ≢ panic)
        × (export_bundle {E = E} c ≡ ok bundle → get_certificate c ≢ none)
  unfolding export_bundle get_certificate
  exports_safe zero os bundle encodes =
      let v = apply_all-IsWhole (new_manager zero) os (new_manager-IsWhole zero) in
      (
        export_account-panic (apply_all lib (new_manager zero) os) encodes v,
        export_private_key-panic (apply_all lib (new_manager zero) os) encodes v,
        λ h. ground (arith, v.keeps_certificate, h),
      )
