-- ===== src/Server/Certificates/Spreading.antt =====
-- server/leader.go against messaging.go: an announced certificate at the nodes that receive it.
use t.Prelude.{
  ℕ, ◌≡◌, sym, inl, inr, Bool, true, false, Option, none, some, List, Outcome, ok, err, panic,
  Outcome-cases, ltb, ◌+◌, if◌then◌else◌, arith,
}
use t.Messaging.Message.{message_client_certs}
use t.Acme.{pem_to_key, Text, AcmeError, no_cert, Bundle, CertManager, Library, Effect, new_manager}
use t.Acme.Certificates.{join, import_bundle, export_bundle, get_certificate}
use t.Acme.Operations.{Operation, apply_all}
use t.Acme.Operations.Paired.{Makes, IsPaired, request_certificate-IsPaired, new_manager-IsPaired}
use t.Acme.Requests.{Answers, request_certificate}
use t.Server.Certificates.{
  Codec, Leaf, announce_bundle, after_renewal, renew_if_expiring, inspect, with_certificate,
  with_bundle, after_request, check_bundle, check_certs, handle_message, find_leaf, thirty_days,
}

-- A bundle survives its encoding.
pub record IsBundleCodec {E : Type 0} (codec : Codec E) : Type 0 where
  pub decodes :
      (bundle : Bundle) (b : Text)
      → codec.encode_bundle bundle ≡ ok b
      → codec.decode_bundle b ≡ ok bundle

module _ {E K A C : Type 0} (lib : Library E K A C) (codec : Codec E) where
  -- The bytes are those of the bundle that the manager exports.
  record Announces (c : CertManager K A C) (b : Text) : Type 0 where
    pub bundle : Bundle
    pub paired : IsPaired lib c
    pub exports : export_bundle {E = E} c ≡ ok bundle
    pub encodes : codec.encode_bundle bundle ≡ ok b

  -- Whatever is announced is the bundle that is then exported.
  abbrev IsFair : CertManager K A C × Option Text → Type 0
  IsFair (c, announced) = (b : Text) → announced ≡ some b → Announces c b

  announce_bundle-IsFair :
      (renewed : Bool) (c : CertManager K A C)
      → IsPaired lib c
      → IsFair (announce_bundle lib codec renewed c)
  announce_bundle-IsFair false c v b h = cc
  announce_bundle-IsFair true c v b h = elim (Outcome-cases (export_bundle {E = E} c)) [
    | inl (bundle, exporting) ↦ elim (Outcome-cases (codec.encode_bundle bundle)) [
      | inl (bytes, encoding) ↦ record {
        bundle = bundle;
        paired = v;
        exports = exporting;
        encodes = ground (arith, exporting, encoding);
      }
      | inr (inl (e, failing)) ↦ absurd (ground (arith, exporting, failing))
      | inr (inr failing) ↦ absurd (ground (arith, exporting, failing))
    ]
    | inr (inl (e, failing)) ↦ absurd (ground (arith, failing))
    | inr (inr failing) ↦ absurd (ground (arith, failing))
  ]

  after_renewal-IsFair :
      (r : Effect E K A C (Unit {0})) → IsPaired lib r.0 → IsFair (after_renewal lib codec r)
  after_renewal-IsFair (c, ok u) v = announce_bundle-IsFair true c v
  after_renewal-IsFair (c, err e) v = λ b h. cc
  after_renewal-IsFair (c, panic) v = λ b h. cc

  module _ (parse : C → Outcome E (List Leaf)) (now : ℕ) (domain zone own_domain : Text)
      (first renewal : Answers E K) where
    renew-IsFair :
        (renewed : Bool) (c : CertManager K A C) (leaf : Option Leaf)
        → IsPaired lib c
        → IsFair (
            renew_if_expiring lib codec parse now domain zone own_domain first renewal renewed c
              leaf)
    renew-IsFair renewed c none v = λ b h. cc
    renew-IsFair renewed c (some leaf) v =
        elim (ltb leaf.not_after (now + thirty_days))
          as (λ expiring. IsFair (
            if expiring
            then after_renewal lib codec (request_certificate lib renewal domain zone c)
            else announce_bundle lib codec renewed c)) [
              | true ↦
                  after_renewal-IsFair (request_certificate lib renewal domain zone c)
                    (request_certificate-IsPaired lib renewal domain zone c v)
              | false ↦ announce_bundle-IsFair renewed c v
            ]

    inspect-IsFair :
        (renewed : Bool) (c : CertManager K A C) (leaves : Outcome E (List Leaf))
        → IsPaired lib c
        → IsFair (inspect lib codec parse now domain zone own_domain first renewal renewed c leaves)
    inspect-IsFair renewed c (ok leaves) v = renew-IsFair renewed c (find_leaf own_domain leaves) v
    inspect-IsFair renewed c (err e) v = λ b h. cc
    inspect-IsFair renewed c panic v = λ b h. cc

    with_certificate-IsFair :
        (renewed : Bool) (c : CertManager K A C) (cert : Option C)
        → IsPaired lib c
        → IsFair (
            with_certificate lib codec parse now domain zone own_domain first renewal renewed c
              cert)
    with_certificate-IsFair renewed c none v = λ b h. cc
    with_certificate-IsFair renewed c (some cert) v = inspect-IsFair renewed c (parse cert) v

    with_bundle-IsFair :
        (renewed : Bool) (c : CertManager K A C) (bundle : Outcome (AcmeError E) Bundle)
        → IsPaired lib c
        → IsFair
            (with_bundle lib codec parse now domain zone own_domain first renewal renewed c bundle)
    with_bundle-IsFair renewed c (ok bundle) v =
        with_certificate-IsFair renewed c (get_certificate c) v
    with_bundle-IsFair renewed c (err e) v = λ b h. cc
    with_bundle-IsFair renewed c panic v = λ b h. cc

    after_request-IsFair :
        (r : Effect E K A C (Unit {0}))
        → IsPaired lib r.0
        → IsFair (after_request lib codec parse now domain zone own_domain first renewal r)
    after_request-IsFair (c, ok u) v = with_bundle-IsFair true c (export_bundle c) v
    after_request-IsFair (c, err e) v = λ b h. cc
    after_request-IsFair (c, panic) v = λ b h. cc

    check_bundle-IsFair :
        (c : CertManager K A C) (bundle : Outcome (AcmeError E) Bundle)
        → IsPaired lib c
        → IsFair (check_bundle lib codec parse now domain zone own_domain first renewal c bundle)
    check_bundle-IsFair c (err no_cert) v =
        after_request-IsFair (request_certificate lib first domain zone c)
          (request_certificate-IsPaired lib first domain zone c v)
    check_bundle-IsFair c (ok bundle) v = with_bundle-IsFair false c (ok bundle) v
    check_bundle-IsFair c (err e) v = with_bundle-IsFair false c (err e) v
    check_bundle-IsFair c panic v = with_bundle-IsFair false c panic v

    check_certs-IsFair :
        (c : CertManager K A C)
        → IsPaired lib c
        → IsFair (check_certs lib codec parse now domain zone own_domain first renewal c)
    unfolding check_certs
    check_certs-IsFair c v = check_bundle-IsFair c (export_bundle c) v

  -- What a peer makes of the announcement, whatever it had.
  module _ (same : IsBundleCodec codec) (updated : K → Text → A × Option E) (saved : Option E)
      (debug : Bool) where
    install :
        (from : ℕ) (b : Text) (c d : CertManager K A C) (bundle : Bundle)
        → Makes lib c.stored_pem c.stored_cert
        → c.has_cert ≡ true
        → c.stored_pem ≡ bundle
        → codec.decode_bundle b ≡ ok bundle
        → let d' =
            handle_message lib codec updated saved debug d
              (record { kind = message_client_certs; from = from; payload = b }) in
          (export_bundle {E = E} d' ≡ export_bundle c) × (get_certificate d' ≡ get_certificate c)
    unfolding handle_message import_bundle export_bundle get_certificate
    install from b c d bundle made there same_pem decoding =
        let parsing : pem_to_key lib bundle.private_key ≡ ok made.key =
          rw (sym same_pem) made.parses in
        let pairing : lib.key_pair (join bundle.chain) bundle.private_key ≡ ok made.cert =
          rw (sym same_pem) made.pairs in
        ground (arith, decoding, parsing, pairing, there, same_pem, made.held)

    exported :
        (c : CertManager K A C) (bundle : Bundle)
        → export_bundle {E = E} c ≡ ok bundle
        → (c.has_cert ≡ true) × (c.stored_pem ≡ bundle)
    unfolding export_bundle
    exported c bundle h = ground (arith, h)

    announced :
        (from : ℕ) (b : Text) (c d : CertManager K A C)
        → Announces c b
        → let d' =
            handle_message lib codec updated saved debug d
              (record { kind = message_client_certs; from = from; payload = b }) in
          (export_bundle {E = E} d' ≡ export_bundle c) × (get_certificate d' ≡ get_certificate c)
    announced from b c d a =
        let (there, same_pem) = exported c a.bundle a.exports in
        install from b c d a.bundle (a.paired there) there same_pem
          (same.decodes a.bundle b a.encodes)

    -- A manager that any operations make of a new one, whose check of its certificate announces
    -- something: a peer that handles the announcement, whatever it had before and whether or not
    -- it can write the file, then exports the bundle and gives out the certificate that the
    -- announcing node does.
    pub renewed_certificate_spreads :
        (parse : C → Outcome E (List Leaf)) (now : ℕ) (domain zone own_domain : Text)
        → (first renewal : Answers E K) (zero : A) (os : List (Operation E K A)) (from : ℕ)
        → (b : Text) (d : CertManager K A C)
        → (check_certs lib codec parse now domain zone own_domain first renewal
            (apply_all lib (new_manager zero) os)).1
          ≡ some b
        → let c =
            (check_certs lib codec parse now domain zone own_domain first renewal
              (apply_all lib (new_manager zero) os)).0 in
          let d' =
            handle_message lib codec updated saved debug d
              (record { kind = message_client_certs; from = from; payload = b }) in
          (export_bundle {E = E} d' ≡ export_bundle c) × (get_certificate d' ≡ get_certificate c)
    renewed_certificate_spreads parse now domain zone own_domain first renewal zero os from b d h =
        announced from b
          (check_certs lib codec parse now domain zone own_domain first renewal
            (apply_all lib (new_manager zero) os)).0
          d
          (check_certs-IsFair parse now domain zone own_domain first renewal
            (apply_all lib (new_manager zero) os) (new_manager-IsPaired lib zero os) b h)
