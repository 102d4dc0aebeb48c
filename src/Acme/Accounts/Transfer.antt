-- ===== src/Acme/Accounts/Transfer.antt =====
-- acme/acme.go: an account from one node to another.
use t.Prelude.{false, ◌≡◌, inl, inr, Option, none, some, ok, Outcome-cases, Option-cases, arith}
use t.Acme.{Text, AccountFile, CertManager, Library, pem_to_key}
use t.Acme.Accounts.{export_account, import_account}

module _ {E K A C : Type 0} (lib : Library E K A C) where
  -- The PEM of a key decodes to that key.
  pub record IsFaithful : Type 0 where
    pub decodes :
        (k : K) (pem : Text)
        → lib.encode_key k ≡ ok pem
        → (block : Text) × (lib.pem_decode pem ≡ some block) × (lib.parse_key block ≡ ok k)

  -- What an exported file comes from.
  pub export_account-key :
      (c : CertManager K A C) (file : AccountFile)
      → export_account lib c ≡ ok file
      → (k : K) × (c.acc_key ≡ some k) × (lib.encode_key k ≡ ok file.private_key)
  unfolding export_account
  export_account-key c file h = elim (Option-cases c.acc_key) [
    | inl missing ↦ ground (arith, missing, h)
    | inr (k, there) ↦ elim (Outcome-cases (lib.encode_key k)) [
      | inl (pem, encoding) ↦ (k, there, ground (arith, there, encoding, h))
      | inr (inl (e, failing)) ↦ ground (arith, there, failing, h)
      | inr (inr failing) ↦ ground (arith, there, failing, h)
    ]
  ]

  -- A node exports its account, and a node without one imports the file, without saving it, and the
  -- certificate authority knows the account under the same URL: then the import ends without an
  -- error, the second node has the key of the first, and it exports the same file.
  pub account_transfer :
      IsFaithful
      → (c d : CertManager K A C) (file : AccountFile) (updated : K → Text → A × Option E) (a : A)
      → export_account lib c ≡ ok file
      → d.has_acc ≡ false
      → ((k : K) → updated k file.url ≡ (a, none))
      → lib.account_url a ≡ file.url
      → let r = import_account lib updated none file false d in
        (r.1 ≡ ok tt) × (r.0.acc_key ≡ c.acc_key) × (export_account lib r.0 ≡ ok file)
  unfolding import_account export_account pem_to_key
  account_transfer faithful c d file updated a exported fresh known same_url =
      let (k, there, encoding) = export_account-key c file exported in
      let (block, decoding, parsing) = faithful.decodes k file.private_key encoding in
      ground (arith, there, encoding, decoding, parsing, known k, same_url)
