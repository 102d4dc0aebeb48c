-- ===== src/Acme/Operations.antt =====
-- acme/acme.go: the operations that change a `CertManager`, one after another in any order. Of these
-- only `RequestCertificate` gives a lock up on the way; Interleaving has what happens in that time.
pub mod Kept
pub mod Account
pub mod Paired
use t.Prelude.{Bool, Option, List, [], ◌∷◌, Outcome}
use t.Acme.{Text, AccountFile, Bundle, CertManager, Library}
use t.Acme.Accounts.{create_account, import_account}
use t.Acme.Certificates.{import_private_key, import_bundle}
use t.Acme.Requests.{Answers, request_certificate}

-- The loading of a file is an import, or changes nothing.
pub data Operation (E K A : Type 0) : Type 0 where
  create : Outcome E K → (K → A × Option E) → Option E → Operation E K A
  import_file : (K → Text → A × Option E) → Option E → AccountFile → Bool → Operation E K A
  import_key : Text → Operation E K A
  import_certificates : Option E → Bundle → Bool → Operation E K A
  request : Answers E K → Text → Text → Operation E K A

module _ {E K A C : Type 0} (lib : Library E K A C) where
  unfoldable pub apply : CertManager K A C → Operation E K A → CertManager K A C
  apply c (create generated registered saved) = (create_account lib generated registered saved c).0
  apply c (import_file updated saved file persist) =
      (import_account lib updated saved file persist c).0
  apply c (import_key pem) = (import_private_key lib pem c).0
  apply c (import_certificates saved bundle persist) = (import_bundle lib saved bundle persist c).0
  apply c (request answers domain zone) = (request_certificate lib answers domain zone c).0

  unfoldable pub apply_all : CertManager K A C → List (Operation E K A) → CertManager K A C
  unfolding apply
  apply_all c [] = c
  apply_all c (o ∷ os) = apply_all (apply c o) os
