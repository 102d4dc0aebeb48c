-- ===== src/Acme/Accounts.antt =====
-- acme/acme.go: the account and its file.
pub mod Transfer
use t.Prelude.{Bool, true, false, Option, none, some, Outcome, ok, err, panic, if◌then◌else◌}
use t.Acme.{
  Text, AcmeError, no_account, account_exists, failed, AccountFile, CertManager, Library, Effect,
  written, key_to_pem, pem_to_key,
}

module _ {E K A C : Type 0} (lib : Library E K A C) where
  abbrev file_of :
      CertManager K A C → Outcome (AcmeError E) Text → Outcome (AcmeError E) AccountFile
  file_of c (ok pem) = ok (record { private_key = pem; url = lib.account_url c.account })
  file_of c (err e) = err e
  file_of c panic = panic

  unfoldable pub export_account : CertManager K A C → Outcome (AcmeError E) AccountFile
  export_account c = if c.has_acc then file_of c (key_to_pem lib c.acc_key) else err no_account

  -- `persistAccount`, as far as `saved` says.
  abbrev save_file : Option E → Outcome (AcmeError E) AccountFile → Outcome (AcmeError E) (Unit {0})
  save_file saved (ok file) = written saved
  save_file saved (err e) = err e
  save_file saved panic = panic

  -- After `NewAccountOptions`: the account is assigned whether or not there is an error.
  abbrev register : Option E → CertManager K A C → A × Option E → Effect E K A C (Unit {0})
  register saved c (a, some e) = (record c { account = a }, err (failed e))
  register saved c (a, none) =
      let c' = record c { account = a; has_acc = true } in
      (c', save_file saved (file_of c' (key_to_pem lib c'.acc_key)))

  abbrev after_key :
      (K → A × Option E) → Option E → CertManager K A C → Outcome E K → Effect E K A C (Unit {0})
  after_key registered saved c (ok k) =
      register saved (record c { acc_key = some k }) (registered k)
  after_key registered saved c (err e) = (record c { acc_key = none }, err (failed e))
  after_key registered saved c panic = (c, panic)

  -- `generated` is the new key, `registered` what `NewAccountOptions` comes to, and `saved` the
  -- error of writing accounts.json, if any.
  unfoldable pub create_account :
      Outcome E K → (K → A × Option E) → Option E → CertManager K A C → Effect E K A C (Unit {0})
  create_account generated registered saved c =
      if c.has_acc then (c, err account_exists) else after_key registered saved c generated

  -- After `UpdateAccount`: the account is assigned whether or not there is an error.
  abbrev reload : Bool → Option E → CertManager K A C → K → A × Option E → Effect E K A C (Unit {0})
  reload persist saved c k (a, some e) = (record c { account = a }, err (failed e))
  reload persist saved c k (a, none) = (
    record c { account = a; has_acc = true; acc_key = some k },
    if persist then written saved else ok tt,
  )

  abbrev after_pem :
      Bool
      → (K → A × Option E)
      → Option E
      → CertManager K A C
      → Outcome (AcmeError E) K
      → Effect E K A C (Unit {0})
  after_pem persist updated saved c (ok k) = reload persist saved c k (updated k)
  after_pem persist updated saved c (err e) = (c, err e)
  after_pem persist updated saved c panic = (c, panic)

  -- `updated k url` is what `UpdateAccount` comes to for that key and the URL of the file.
  unfoldable pub import_account :
      (K → Text → A × Option E)
      → Option E
      → AccountFile
      → Bool
      → CertManager K A C
      → Effect E K A C (Unit {0})
  unfolding pem_to_key
  import_account updated saved file persist c =
      if c.has_acc
      then (c, err account_exists)
      else after_pem persist (λ k. updated k file.url) saved c (pem_to_key lib file.private_key)

  -- `opened` is the decoded file: none if there is no file, an error if it cannot be read.
  abbrev pub load_account :
      (K → Text → A × Option E)
      → Outcome E (Option AccountFile)
      → CertManager K A C
      → Effect E K A C (Unit {0})
  load_account updated (ok none) c = (c, err no_account)
  load_account updated (ok (some file)) c = import_account updated none file false c
  load_account updated (err e) c = (c, err (failed e))
  load_account updated panic c = (c, panic)
