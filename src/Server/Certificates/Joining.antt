-- ===== src/Server/Certificates/Joining.antt =====
-- server/gossip.go: the account and the certificate of the node that another one joins.
use t.Prelude.{
  ℕ, ◌≡◌, ◌≢◌, refl, sym, ◌∙◌, ap, ◌⊎◌, inl, inr, Bool, true, false, not, Option, none, some, List,
  ◌∷◌, ok, Outcome-cases, Bool-cases, arith,
}
use t.Acme.{Text, AccountFile, Bundle, CertManager, Library, pem_to_key, new_manager}
use t.Acme.Accounts.{export_account, import_account}
use t.Acme.Accounts.Transfer.{IsFaithful, export_account-key}
use t.Acme.Certificates.{join, import_bundle, export_bundle, get_certificate}
use t.Acme.Operations.{Operation, apply_all}
use t.Acme.Operations.Paired.{Makes, IsPaired, new_manager-IsPaired}
use t.Server.Certificates.{Codec, AcmeSynchronization, merge_join, local_join, then_bundle}

-- What is sent survives its encoding.
pub record IsSyncCodec {E : Type 0} (codec : Codec E) : Type 0 where
  pub decodes :
      (as' : AcmeSynchronization) (b : Text)
      → codec.encode_sync as' ≡ ok b
      → codec.decode_sync b ≡ ok as'

-- The certificate authority knows every account, under the URL that it is asked for.
pub record IsKnown {E K A C : Type 0} (lib : Library E K A C) (updated : K → Text → A × Option E)
    : Type 0 where
  pub account_for : K → Text → A
  pub knows : (k : K) (url : Text) → updated k url ≡ (account_for k url, none)
  pub same_url : (k : K) (url : Text) → lib.account_url (account_for k url) ≡ url

module _ {E K A C : Type 0} (lib : Library E K A C) (codec : Codec E) where
  -- What a state that is not empty was made of.
  record Sent (self : ℕ) (c : CertManager K A C) (b : Text) : Type 0 where
    pub file : AccountFile
    pub bundle : Bundle
    pub exports : export_account lib c ≡ ok file
    pub there : c.has_cert ≡ true
    pub same_pem : c.stored_pem ≡ bundle
    pub encodes :
        codec.encode_sync (record { from = self; account_file = some file; bundle = some bundle })
        ≡ ok b

  local_join-Sent :
      (self : ℕ) (c : CertManager K A C) (b : ℕ) (bs : Text)
      → local_join lib codec self c ≡ b ∷ bs
      → Sent self c (b ∷ bs)
  unfolding local_join export_bundle
  local_join-Sent self c b bs h = elim (Outcome-cases (export_account lib c)) [
    | inl (file, exporting) ↦ elim (Bool-cases c.has_cert) [
      | inl there ↦
          elim (Outcome-cases (
            codec.encode_sync
              (record { from = self; account_file = some file; bundle = some c.stored_pem }))) [
                | inl (bytes, encoding) ↦ record {
                  file = file;
                  bundle = c.stored_pem;
                  exports = exporting;
                  there = there;
                  same_pem = refl;
                  encodes = ground (arith, h, exporting, there, encoding);
                }
                | inr (inl (e, failing)) ↦ absurd (ground (arith, h, exporting, there, failing))
                | inr (inr failing) ↦ absurd (ground (arith, h, exporting, there, failing))
              ]
      | inr missing ↦ absurd (ground (arith, h, exporting, missing))
    ]
    | inr (inl (e, failing)) ↦ absurd (ground (arith, h, failing))
    | inr (inr failing) ↦ absurd (ground (arith, h, failing))
  ]

  module _ (updated : K → Text → A × Option E) (debug : Bool) where
    -- The bundle after the account, whichever account it is.
    install :
        (c d : CertManager K A C) (bundle : Bundle)
        → Makes lib c.stored_pem c.stored_cert
        → c.has_cert ≡ true
        → c.stored_pem ≡ bundle
        → let d' = (import_bundle lib none bundle (not debug) d).0 in
          (export_bundle {E = E} d' ≡ export_bundle c)
          × (get_certificate d' ≡ get_certificate c)
          × (export_account lib d' ≡ export_account lib d)
    unfolding import_bundle export_bundle get_certificate export_account
    install c d bundle made there same_pem =
        let parsing : pem_to_key lib bundle.private_key ≡ ok made.key =
          rw (sym same_pem) made.parses in
        let pairing : lib.key_pair (join bundle.chain) bundle.private_key ≡ ok made.cert =
          rw (sym same_pem) made.pairs in
        ground (arith, parsing, pairing, there, same_pem, made.held)

    -- The account comes first: it is that of the node that sent the state, or was there.
    take_account :
        IsFaithful lib
        → IsKnown lib updated
        → (c d : CertManager K A C) (file : AccountFile) → export_account lib c ≡ ok file
        → (bundle : Bundle)
        → (d' : CertManager K A C) × (then_bundle lib codec updated none debug bundle
              (import_account lib updated none file (not debug) d)
            ≡ (import_bundle lib none bundle (not debug) d').0)
          × (((d.has_acc ≡ true) × (d' ≡ d))
              ⊎ ((d.has_acc ≡ false) × (export_account lib d' ≡ ok file)))
    unfolding import_account export_account pem_to_key
    take_account faithful known c d file exported bundle = elim (Bool-cases d.has_acc) [
      | inl there ↦ (d, ground (arith, there), inl (there, refl))
      | inr fresh ↦
          let (k, held, encoding) = export_account-key lib c file exported in
          let (block, decoding, parsing) = faithful.decodes k file.private_key encoding in
          (
            record d { account = known.account_for k file.url; has_acc = true; acc_key = some k },
            ground (arith, fresh, decoding, parsing, known.knows k file.url),
            inr (fresh, ground (arith, encoding, known.same_url k file.url)),
          )
    ]

    merge_join-then_bundle :
        (file : AccountFile) (bundle : Bundle) (d : CertManager K A C) (self other b : ℕ)
        (bs : Text)
        → self ≢ other
        → codec.decode_sync (b ∷ bs)
          ≡ ok (record { from = self; account_file = some file; bundle = some bundle })
        → merge_join lib codec updated none debug other d (b ∷ bs)
          ≡ then_bundle lib codec updated none debug bundle
              (import_account lib updated none file (not debug) d)
    unfolding merge_join
    merge_join-then_bundle file bundle d self other b bs apart decoding =
        ground (arith, apart, decoding)

    -- The statement below, for any manager with a paired certificate.
    joined :
        IsFaithful lib
        → IsSyncCodec codec
        → IsKnown lib updated
        → (c d : CertManager K A C) (self other b : ℕ) (bs : Text) → IsPaired lib c
        → self ≢ other
        → Sent self c (b ∷ bs)
        → let d' = merge_join lib codec updated none debug other d (b ∷ bs) in
          (export_bundle {E = E} d' ≡ export_bundle c)
          × (get_certificate d' ≡ get_certificate c)
          × (((d.has_acc ≡ true) × (export_account lib d' ≡ export_account lib d))
              ⊎ ((d.has_acc ≡ false) × (export_account lib d' ≡ export_account lib c)))
    joined faithful same known c d self other b bs v apart sent =
        let decoding =
          same.decodes
            (record { from = self; account_file = some sent.file; bundle = some sent.bundle })
            (b ∷ bs) sent.encodes in
        let (d1, taken, whose) =
          take_account faithful known c d sent.file sent.exports sent.bundle in
        let (bundles, certificates, accounts) =
          install c d1 sent.bundle (v sent.there) sent.there sent.same_pem in
        rw (merge_join-then_bundle sent.file sent.bundle d self other b bs apart decoding, taken)
          (
            bundles,
            certificates,
            elim whose [
              | inl (had, e) ↦ inl (had, accounts ∙ ap (λ x. export_account lib x) e)
              | inr (lacked, e) ↦ inr (lacked, accounts ∙ e ∙ sym sent.exports)
            ],
          )

    -- `LocalState` of a node whose manager any operations make of a new one, when it is not
    -- empty, merged at another node that joins and that can write its files; the encodings are
    -- faithful, and the certificate authority knows the account. Whatever the node that joins had,
    -- it exports the bundle and gives out the certificate of the first; and it exports the account
    -- that it exported before if it had one, and that of the first if it had none.
    pub join_sync :
        IsFaithful lib
        → IsSyncCodec codec
        → IsKnown lib updated
        → (zero : A) (os : List (Operation E K A)) (d : CertManager K A C) (self other b : ℕ)
          (bs : Text)
        → self ≢ other
        → local_join lib codec self (apply_all lib (new_manager zero) os) ≡ b ∷ bs
        → let c = apply_all lib (new_manager zero) os in
          let d' = merge_join lib codec updated none debug other d (b ∷ bs) in
          (export_bundle {E = E} d' ≡ export_bundle c)
          × (get_certificate d' ≡ get_certificate c)
          × (((d.has_acc ≡ true) × (export_account lib d' ≡ export_account lib d))
              ⊎ ((d.has_acc ≡ false) × (export_account lib d' ≡ export_account lib c)))
    join_sync faithful same known zero os d self other b bs apart h =
        joined faithful same known (apply_all lib (new_manager zero) os) d self other b bs
          (new_manager-IsPaired lib zero os) apart
          (local_join-Sent self (apply_all lib (new_manager zero) os) b bs h)
