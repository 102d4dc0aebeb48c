-- ===== src/Acme.antt =====
-- acme/: the account with the certificate authority, and the certificate, of a node. This file has
-- the state of `CertManager` in acme.go, its errors, and its PEM encoding of keys.
pub mod Accounts
pub mod Certificates
pub mod Requests
pub mod Operations
pub mod Interleaving
pub mod Samples
mod Runs
use t.Prelude.{Bool, false, Option, none, some, List, [], ◌∷◌, ◌++◌, ℕ, Outcome, ok, err, panic}

-- Texts are lists of bytes.
abbrev pub Text : Type 0
Text = List ℕ

-- `failed` is an error of a library, wrapped.
pub data AcmeError (E : Type 0) : Type 0 where
  no_account account_exists no_pkey pkey_exists no_cert : AcmeError E
  missing_challenge dns_update_failed : AcmeError E
  failed : E → AcmeError E

pub record AccountFile : Type 0 where
  pub private_key : Text
  pub url : Text

pub record Bundle : Type 0 where
  pub private_key : Text
  pub chain : List Text

-- The keys are pointers, which may be nil; the locks are held for the whole of each operation.
pub record CertManager (K A C : Type 0) : Type 0 where
  pub acc_key : Option K
  pub account : A
  pub has_acc : Bool
  pub cert_pkey : Option K
  pub has_cert_pkey : Bool
  pub has_cert : Bool
  pub stored_cert : Option C
  pub stored_pem : Bundle

-- What acme.go uses of `crypto/x509`, `encoding/pem`, `crypto/tls` and the ACME library: `encode_key` is
-- the PEM of a key, `pem_decode` the first block of a text, if there is one, `parse_key` the
-- key in it; `key_pair` is `tls.X509KeyPair`.
pub record Library (E K A C : Type 0) : Type 0 where
  pub encode_key : K → Outcome E Text
  pub pem_decode : Text → Option Text
  pub parse_key : Text → Outcome E K
  pub key_pair : Text → Text → Outcome E C
  pub account_url : A → Text

-- A call's new state with its result.
abbrev pub Effect : Type 0 → Type 0 → Type 0 → Type 0 → Type 0 → Type 0
Effect E K A C R = CertManager K A C × Outcome (AcmeError E) R

abbrev pub wrapped : {E R : Type 0} → Outcome E R → Outcome (AcmeError E) R
wrapped (ok r) = ok r
wrapped (err e) = err (failed e)
wrapped panic = panic

-- What writing a file comes to: an error or none.
abbrev pub written : {E : Type 0} → Option E → Outcome (AcmeError E) (Unit {0})
written none = ok tt
written (some e) = err (failed e)

-- `New`, after its test of the configuration; `zero` is an account with nothing in it.
unfoldable pub new_manager : {K A C : Type 0} → A → CertManager K A C
new_manager zero = record {
  acc_key = none;
  account = zero;
  has_acc = false;
  cert_pkey = none;
  has_cert_pkey = false;
  has_cert = false;
  stored_cert = none;
  stored_pem = record { private_key = []; chain = [] };
}

module _ {E K A C : Type 0} (lib : Library E K A C) where
  -- A nil key is dereferenced.
  abbrev pub key_to_pem : Option K → Outcome (AcmeError E) Text
  key_to_pem none = panic
  key_to_pem (some k) = wrapped (lib.encode_key k)

  -- A text with no PEM block gives a nil block, which is dereferenced.
  abbrev pub parsed : Option Text → Outcome (AcmeError E) K
  parsed none = panic
  parsed (some block) = wrapped (lib.parse_key block)

  unfoldable pub pem_to_key : Text → Outcome (AcmeError E) K
  pem_to_key b = parsed (lib.pem_decode b)
