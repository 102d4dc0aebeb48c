-- ===== src/Server/Certificates/Accounts.antt =====
-- server/leader.go against messaging.go: an announced account at the nodes that receive it.
use t.Prelude.{
  ℕ, ◌≡◌, sym, ◌∙◌, ◌⊎◌, inl, inr, Bool, true, false, Option, some, Outcome, ok, err, panic,
  Outcome-cases, Bool-cases, arith,
}
use t.Messaging.Message.{message_acme_account_key}
use t.Acme.{Text, AcmeError, no_account, AccountFile, CertManager, Library, Effect, pem_to_key}
use t.Acme.Accounts.{export_account, create_account, import_account, load_account}
use t.Acme.Accounts.Transfer.{IsFaithful, export_account-key}
use t.Server.Certificates.{
  Codec, announce_account, after_create, after_load, without_account, check_account_keys,
  handle_message,
}
use t.Server.Certificates.Joining.{IsKnown}

-- An account file survives its encoding.
pub record IsAccountCodec {E : Type 0} (codec : Codec E) : Type 0 where
  pub decodes :
      (file : AccountFile) (b : Text)
      → codec.encode_account file ≡ ok b
      → codec.decode_account b ≡ ok file

module _ {E K A C : Type 0} (lib : Library E K A C) (codec : Codec E) where
  -- The bytes are those of the account that the manager exports.
  record AnnouncesAccount (c : CertManager K A C) (b : Text) : Type 0 where
    pub file : AccountFile
    pub exports : export_account lib c ≡ ok file
    pub encodes : codec.encode_account file ≡ ok b

  abbrev IsOpen : CertManager K A C × Option Text → Type 0
  IsOpen (c, announced) = (b : Text) → announced ≡ some b → AnnouncesAccount c b

  announce_account-IsOpen : (c : CertManager K A C) → IsOpen (announce_account lib codec c)
  announce_account-IsOpen c b h = elim (Outcome-cases (export_account lib c)) [
    | inl (file, exporting) ↦ elim (Outcome-cases (codec.encode_account file)) [
      | inl (bytes, encoding) ↦ record {
        file = file;
        exports = exporting;
        encodes = ground (arith, h, exporting, encoding);
      }
      | inr (inl (e, failing)) ↦ absurd (ground (arith, h, exporting, failing))
      | inr (inr failing) ↦ absurd (ground (arith, h, exporting, failing))
    ]
    | inr (inl (e, failing)) ↦ absurd (ground (arith, h, failing))
    | inr (inr failing) ↦ absurd (ground (arith, h, failing))
  ]

  after_create-IsOpen : (r : Effect E K A C (Unit {0})) → IsOpen (after_create lib codec r)
  after_create-IsOpen (c, ok u) = announce_account-IsOpen c
  after_create-IsOpen (c, err e) = λ b h. cc
  after_create-IsOpen (c, panic) = λ b h. cc

  module _ (opened : Outcome E (Option AccountFile)) (updated : K → Text → A × Option E)
      (generated : Outcome E K) (registered : K → A × Option E) (saved : Option E) where
    after_load-IsOpen :
        (r : Effect E K A C (Unit {0}))
        → IsOpen (after_load lib codec opened updated generated registered saved r)
    after_load-IsOpen (c, err no_account) =
        after_create-IsOpen (create_account lib generated registered saved c)
    after_load-IsOpen (c, panic) = λ b h. cc
    after_load-IsOpen (c, ok u) = announce_account-IsOpen c
    after_load-IsOpen (c, err e) = announce_account-IsOpen c

    without_account-IsOpen :
        (c : CertManager K A C) (o : Outcome (AcmeError E) AccountFile)
        → IsOpen (without_account lib codec opened updated generated registered saved c o)
    without_account-IsOpen c (err no_account) =
        after_load-IsOpen (load_account lib updated opened c)
    without_account-IsOpen c (ok file) = λ b h. cc
    without_account-IsOpen c (err e) = λ b h. cc
    without_account-IsOpen c panic = λ b h. cc

    check_account_keys-IsOpen :
        (c : CertManager K A C)
        → IsOpen (check_account_keys lib codec opened updated generated registered saved c)
    unfolding check_account_keys
    check_account_keys-IsOpen c = without_account-IsOpen c (export_account lib c)

  -- What a peer makes of the announcement.
  received :
      (same : IsAccountCodec codec) (faithful : IsFaithful lib) (updated : K → Text → A × Option E)
      (known : IsKnown lib updated) (saved : Option E) (debug : Bool) (c d : CertManager K A C)
      (from : ℕ) (b : Text)
      → AnnouncesAccount c b
      → let d' =
          handle_message lib codec updated saved debug d
            (record { kind = message_acme_account_key; from = from; payload = b }) in
        ((d.has_acc ≡ true) × (d' ≡ d))
        ⊎ ((d.has_acc ≡ false) × (export_account lib d' ≡ export_account lib c))
  unfolding handle_message import_account export_account pem_to_key
  received same faithful updated known saved debug c d from b a =
      let decoding = same.decodes a.file b a.encodes in
      elim (Bool-cases d.has_acc) [
        | inl there ↦ inl (there, ground (arith, decoding, there))
        | inr fresh ↦
            let (k, held, encoding) = export_account-key lib c a.file a.exports in
            let (block, unpacking, parsing) = faithful.decodes k a.file.private_key encoding in
            inr (
              fresh,
              ground (
                arith,
                decoding,
                fresh,
                unpacking,
                parsing,
                encoding,
                known.knows k a.file.url,
                known.same_url k a.file.url,
              )
                  ∙ sym a.exports,
            )
      ]

  -- A check of the account that announces something, at any manager; the encodings are faithful,
  -- and the certificate authority knows the account. A peer that handles the announcement, whether
  -- or not it can write the file, exports the account of the announcing node, unless it had an
  -- account before, and then nothing of it changes.
  pub account_spreads :
      (same : IsAccountCodec codec) (faithful : IsFaithful lib)
      → (opened : Outcome E (Option AccountFile)) (updated updated' : K → Text → A × Option E)
      → (known : IsKnown lib updated') (generated : Outcome E K) (registered : K → A × Option E)
      → (saved saved' : Option E) (debug : Bool) (c d : CertManager K A C) (from : ℕ) (b : Text)
      → (check_account_keys lib codec opened updated generated registered saved c).1 ≡ some b
      → let c' = (check_account_keys lib codec opened updated generated registered saved c).0 in
        let d' =
          handle_message lib codec updated' saved' debug d
            (record { kind = message_acme_account_key; from = from; payload = b }) in
        ((d.has_acc ≡ true) × (d' ≡ d))
        ⊎ ((d.has_acc ≡ false) × (export_account lib d' ≡ export_account lib c'))
  account_spreads same faithful opened updated updated' known generated registered saved saved'
        debug c d from b h =
      let a = check_account_keys-IsOpen opened updated generated registered saved c b h in
      received same faithful updated' known saved' debug
        (check_account_keys lib codec opened updated generated registered saved c).0 d from b a
