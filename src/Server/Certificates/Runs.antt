-- ===== src/Server/Certificates/Runs.antt =====
-- The theorems on the spreading of accounts and certificates at a node whose certificate has a key
-- and a chain of one byte each.
use t.Prelude.{
  ℕ, ◌≡◌, refl, ◌⊎◌, inl, inr, true, false, Option, none, some, List, [], ◌∷◌, Outcome, ok, err,
  Outcome-cases, arith,
}
use t.Messaging.Message.{message_client_certs}
use t.Acme.{Library, Text, AccountFile, Bundle, new_manager}
use t.Acme.Accounts.{create_account, export_account}
use t.Acme.Accounts.Transfer.{IsFaithful}
use t.Acme.Certificates.{export_private_key, import_bundle, export_bundle, get_certificate}
use t.Acme.Requests.{dot, request_certificate, request_names}
use t.Acme.Operations.{Operation, create, import_certificates, apply_all}
use t.Acme.Samples.{plain, plain-IsFaithful, zone, granting}
use t.Server.Certificates.{
  Codec, Leaf, AcmeSynchronization, check_certs, handle_message, merge_join, local_join,
  contains_text,
}
use t.Server.Certificates.Spreading.{IsBundleCodec, renewed_certificate_spreads}
use t.Server.Certificates.Accounts.{IsAccountCodec}
use t.Server.Certificates.Joining.{IsSyncCodec, IsKnown, join_sync}

-- Two texts of one byte each.
abbrev both : Text → Text → Outcome ℕ Text
both (a ∷ []) (b ∷ []) = ok (a ∷ b ∷ [])
both _ _ = err 0

abbrev only : List Text → Text
only (t ∷ []) = t
only _ = []

abbrev bundle_of : Text → Outcome ℕ Bundle
bundle_of (a ∷ (b ∷ [])) = ok (record { private_key = a ∷ []; chain = (b ∷ []) ∷ [] })
bundle_of _ = err 0

abbrev file_of : Text → Outcome ℕ AccountFile
file_of (a ∷ (b ∷ [])) = ok (record { private_key = a ∷ []; url = b ∷ [] })
file_of _ = err 0

abbrev put_sync : ℕ → Outcome ℕ Text → Outcome ℕ Text → Outcome ℕ Text
put_sync from (ok (a ∷ (u ∷ []))) (ok (k ∷ (x ∷ []))) = ok (from ∷ a ∷ u ∷ k ∷ x ∷ [])
put_sync from _ _ = err 0

abbrev sync_bytes : ℕ → Option AccountFile → Option Bundle → Outcome ℕ Text
sync_bytes from (some file) (some bundle) =
    put_sync from (both file.private_key file.url) (both bundle.private_key (only bundle.chain))
sync_bytes from _ _ = err 0

abbrev sync_of : Text → Outcome ℕ AcmeSynchronization
sync_of (from ∷ (a ∷ (u ∷ (k ∷ (x ∷ []))))) = ok (record {
  from = from;
  account_file = some (record { private_key = a ∷ []; url = u ∷ [] });
  bundle = some (record { private_key = k ∷ []; chain = (x ∷ []) ∷ [] });
})
sync_of _ = err 0

abbrev bytes : Codec ℕ
bytes = record {
  encode_account = λ file. both file.private_key file.url;
  decode_account = file_of;
  encode_bundle = λ bundle. both bundle.private_key (only bundle.chain);
  decode_bundle = bundle_of;
  encode_sync = λ as'. sync_bytes as'.from as'.account_file as'.bundle;
  decode_sync = sync_of;
}

both-shape :
    (s t b : Text)
    → both s t ≡ ok b
    → (x : ℕ) × (y : ℕ) × (s ≡ x ∷ []) × (t ≡ y ∷ []) × (b ≡ x ∷ y ∷ [])
both-shape (x ∷ []) (y ∷ []) b h = (x, y, refl, refl, ground (arith, h))
both-shape [] t b h = absurd (ground (arith, h))
both-shape (x ∷ []) [] b h = absurd (ground (arith, h))
both-shape (x ∷ []) (y ∷ (z ∷ ys)) b h = absurd (ground (arith, h))
both-shape (x ∷ (z ∷ xs)) t b h = absurd (ground (arith, h))

only-shape : (chain : List Text) (y : ℕ) → only chain ≡ y ∷ [] → chain ≡ (y ∷ []) ∷ []
only-shape [] y h = absurd (ground (arith, h))
only-shape (t ∷ []) y h = ground (arith, h)
only-shape (t ∷ (u ∷ ts)) y h = absurd (ground (arith, h))

bundle_of-bytes :
    (bundle : Bundle) (b : Text)
    → both bundle.private_key (only bundle.chain) ≡ ok b
    → bundle_of b ≡ ok bundle
bundle_of-bytes bundle b h =
    let (x, y, first, second, e) = both-shape bundle.private_key (only bundle.chain) b h in
    let chained = only-shape bundle.chain y second in ground (arith, e, first, chained)

bytes-IsBundleCodec : IsBundleCodec bytes
bytes-IsBundleCodec = record { decodes = bundle_of-bytes }

sync_of-both :
    (from : ℕ) (file : AccountFile) (bundle : Bundle) (x y b : Text)
    → both file.private_key file.url ≡ ok x
    → both bundle.private_key (only bundle.chain) ≡ ok y
    → put_sync from (ok x) (ok y) ≡ ok b
    → sync_of b ≡ ok (record { from = from; account_file = some file; bundle = some bundle })
sync_of-both from file bundle x y b first second h =
    let (k, u, keyed, known, e) = both-shape file.private_key file.url x first in
    let (c, d, owned, paired, e') = both-shape bundle.private_key (only bundle.chain) y second in
    let chained = only-shape bundle.chain d paired in
    ground (arith, h, e, e', keyed, known, owned, chained)

sync_of-bytes :
    (from : ℕ) (file : Option AccountFile) (bundle : Option Bundle) (b : Text)
    → sync_bytes from file bundle ≡ ok b
    → sync_of b ≡ ok (record { from = from; account_file = file; bundle = bundle })
sync_of-bytes from (some file) (some bundle) b h =
    elim (Outcome-cases (both file.private_key file.url)) [
      | inl (x, first) ↦ elim (Outcome-cases (both bundle.private_key (only bundle.chain))) [
        | inl (y, second) ↦
            sync_of-both from file bundle x y b first second (ground (arith, h, first, second))
        | inr (inl (e, failing)) ↦ absurd (ground (arith, h, first, failing))
        | inr (inr failing) ↦ absurd (ground (arith, h, first, failing))
      ]
      | inr (inl (e, failing)) ↦ absurd (ground (arith, h, failing))
      | inr (inr failing) ↦ absurd (ground (arith, h, failing))
    ]
sync_of-bytes from (some file) none b h = absurd (ground (arith, h))
sync_of-bytes from none bundle b h = absurd (ground (arith, h))

bytes-IsSyncCodec : IsSyncCodec bytes
bytes-IsSyncCodec = record {
  decodes = λ as' b h. sync_of-bytes as'.from as'.account_file as'.bundle b h;
}

-- "a.io"
abbrev site : Text
site = 97 ∷ dot ∷ zone

abbrev parse : ℕ → Outcome ℕ (List Leaf)
parse cert = ok (record { dns_names = site ∷ []; not_after = 3000000 } ∷ [])

abbrev registering : List (Operation ℕ ℕ ℕ)
registering = create (ok 7) (λ k. (5, none)) none ∷ []

renewed_certificate_spreads_example :
    let c =
      (check_certs plain bytes parse 0 site zone site granting granting
        (apply_all plain (new_manager 0) registering)).0 in
    let d' =
      handle_message plain bytes
        (λ k url. (5, none))
        (some 3)
        false
        (new_manager 0)
        (record { kind = message_client_certs; from = 2; payload = 9 ∷ 1 ∷ [] }) in
    (export_bundle {E = ℕ} d' ≡ export_bundle c) × (get_certificate d' ≡ get_certificate c)
unfolding check_certs export_bundle apply_all create_account new_manager request_certificate
    request_names export_private_key import_bundle get_certificate contains_text
renewed_certificate_spreads_example =
    renewed_certificate_spreads plain bytes bytes-IsBundleCodec (λ k url. (5, none)) (some 3) false
      parse 0 site zone site granting granting 0 registering 2 (9 ∷ 1 ∷ []) (new_manager 0) refl

-- Accounts are their URLs.
abbrev texts : Library ℕ ℕ Text ℕ
texts = record {
  encode_key = plain.encode_key;
  pem_decode = plain.pem_decode;
  parse_key = plain.parse_key;
  key_pair = plain.key_pair;
  account_url = λ a. a;
}

texts-IsFaithful : IsFaithful texts
texts-IsFaithful = record { decodes = plain-IsFaithful.decodes }

abbrev finding : ℕ → Text → Text × Option ℕ
finding k url = (url, none)

texts-IsKnown : IsKnown texts finding
texts-IsKnown = record {
  account_for = λ k url. url;
  knows = λ k url. refl;
  same_url = λ k url. refl;
}

abbrev serving : List (Operation ℕ ℕ Text)
serving =
    create (ok 7) (λ k. (5 ∷ [], none)) none
    ∷ import_certificates none (record { private_key = 9 ∷ []; chain = (1 ∷ []) ∷ [] }) false
    ∷ []

join_sync_example :
    let c = apply_all texts (new_manager []) serving in
    let d' =
      merge_join texts bytes finding none false 2 (new_manager []) (1 ∷ 7 ∷ 5 ∷ 9 ∷ 1 ∷ []) in
    (export_bundle {E = ℕ} d' ≡ export_bundle c)
    × (get_certificate d' ≡ get_certificate c)
    × (((false ≡ true) × (export_account texts d' ≡ export_account texts (new_manager [])))
        ⊎ ((false ≡ false) × (export_account texts d' ≡ export_account texts c)))
unfolding local_join apply_all export_account import_bundle create_account new_manager export_bundle
join_sync_example =
    join_sync texts bytes finding false texts-IsFaithful bytes-IsSyncCodec texts-IsKnown [] serving
      (new_manager []) 1 2 1 (7 ∷ 5 ∷ 9 ∷ 1 ∷ []) (λ e. ground (arith, e)) refl

file_of-bytes :
    (file : AccountFile) (b : Text) → both file.private_key file.url ≡ ok b → file_of b ≡ ok file
file_of-bytes file b h =
    let (x, y, first, second, e) = both-shape file.private_key file.url b h in
    ground (arith, e, first, second)

bytes-IsAccountCodec : IsAccountCodec bytes
bytes-IsAccountCodec = record { decodes = file_of-bytes }
