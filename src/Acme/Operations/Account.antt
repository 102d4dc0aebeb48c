-- ===== src/Acme/Operations/Account.antt =====
-- acme/acme.go: the account of a `CertManager` under its operations.
use t.Prelude.{Bool, true, ◌≡◌, inl, inr, Option, List, [], ◌∷◌, Outcome-cases, arith}
use t.Acme.{Bundle, CertManager, Library, pem_to_key}
use t.Acme.Accounts.{create_account, import_account}
use t.Acme.Certificates.{import_private_key, import_bundle}
use t.Acme.Certificates.Cases.{import_bundle_cases}
use t.Acme.Requests.Outcomes.{request_certificate-keeps}
use t.Acme.Operations.{
  Operation, create, import_file, import_key, import_certificates, request, apply, apply_all,
}

-- The account of a manager and its key.
abbrev pub HasAccount : {K A C : Type 0} → A → Option K → CertManager K A C → Type 0
HasAccount a k c = (c.has_acc ≡ true) × (c.account ≡ a) × (c.acc_key ≡ k)

module _ {E K A C : Type 0} (lib : Library E K A C) (a : A) (k : Option K) where
  import_bundle-HasAccount :
      (saved : Option E) (bundle : Bundle) (persist : Bool) (c : CertManager K A C)
      → HasAccount a k c
      → HasAccount a k (import_bundle lib saved bundle persist c).0
  import_bundle-HasAccount saved bundle persist c v =
      elim (import_bundle_cases lib saved bundle persist c) [
        | inl (key, cert, parsing, pairing, e) ↦ rw e v
        | inr e ↦ rw e v
      ]

  apply-HasAccount :
      (c : CertManager K A C) (o : Operation E K A)
      → HasAccount a k c
      → HasAccount a k (apply lib c o)
  unfolding apply create_account import_account import_private_key
  apply-HasAccount c (create generated registered saved) v = ground (arith, v)
  apply-HasAccount c (import_file updated saved file persist) v = ground (arith, v)
  apply-HasAccount c (import_key pem) v = elim (Outcome-cases (pem_to_key lib pem)) [
    | inl (key, parsing) ↦ ground (arith, parsing, v)
    | inr (inl (f, failing)) ↦ ground (arith, failing, v)
    | inr (inr failing) ↦ ground (arith, failing, v)
  ]
  apply-HasAccount c (import_certificates saved bundle persist) v =
      import_bundle-HasAccount saved bundle persist c v
  apply-HasAccount c (request answers domain zone) v =
      request_certificate-keeps lib answers (HasAccount a k)
        (λ saved bundle d w. import_bundle-HasAccount saved bundle true d w) (λ key d w. w) domain
        zone c v

  -- Once a manager has an account, no operations change the account or its key.
  pub apply_all-HasAccount :
      (c : CertManager K A C) (os : List (Operation E K A))
      → HasAccount a k c
      → HasAccount a k (apply_all lib c os)
  unfolding apply_all
  apply_all-HasAccount c [] v = v
  apply_all-HasAccount c (o ∷ os) v =
      apply_all-HasAccount (apply lib c o) os (apply-HasAccount c o v)
