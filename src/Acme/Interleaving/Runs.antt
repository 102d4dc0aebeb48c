-- ===== src/Acme/Interleaving/Runs.antt =====
-- The theorems on interleaved operations where a bundle is imported while a request waits for the
-- authority.
use t.Prelude.{
  ℕ, ◌≡◌, ◌≢◌, refl, ◌⊎◌, true, none, some, List, [], ◌∷◌, ok, panic, lookup, insert, delete, same,
  err, if◌then◌else◌, arith,
}
use t.Acme.{Text, no_cert, Bundle, Library, pem_to_key}
use t.Acme.Samples.{plain, zone}
use t.Acme.Accounts.{export_account, create_account}
use t.Acme.Certificates.{export_bundle, export_private_key, get_certificate, import_bundle}
use t.Acme.Requests.{Answers, done, order_chain, request_names, trim_suffix, authorize}
use t.Acme.Operations.{create, import_certificates, apply}
use t.Acme.Operations.Paired.{Makes}
use t.Acme.Interleaving.{
  Managing, Action, operate, begin, export_key, finish, start, step, run, waits,
}
use t.Acme.Interleaving.Safety.{interleaved_safe}
use t.Acme.Interleaving.Signer.{finish_signer}

-- A library in which a chain goes with a key if it is the text of that key, and an authority that
-- certifies the key 9.
abbrev strict : Library ℕ ℕ ℕ ℕ
strict = record plain { key_pair = λ chain key. if same chain key then ok 1 else err 2 }

abbrev certifying : Answers ℕ ℕ
certifying = record {
  generated = ok 9;
  signed = λ k names. ok tt;
  ordered = ok (done ∷ []);
  chain = ok ((9 ∷ []) ∷ []);
  saved = none;
}

abbrev imported : Bundle
imported = record { private_key = 5 ∷ []; chain = (5 ∷ []) ∷ [] }

-- An account is made, a request begins with a new key and exports it, the key 5 is imported, and
-- the request ends.
abbrev acts : List (Action ℕ ℕ ℕ)
acts =
    operate (create (ok 3) (λ k. (4, none)) none)
    ∷ begin 1 certifying zone zone
    ∷ export_key 1
    ∷ operate (import_certificates none imported true)
    ∷ finish 1 certifying
    ∷ []

abbrev granted : Bundle
granted = record { private_key = 9 ∷ []; chain = (9 ∷ []) ∷ [] }

abbrev ended : Managing ℕ ℕ ℕ
ended = record {
  manager = record {
    acc_key = some 3;
    account = 4;
    has_acc = true;
    cert_pkey = some 9;
    has_cert_pkey = true;
    has_cert = true;
    stored_cert = some 1;
    stored_pem = granted;
  };
  requests = [];
}

interleaved_safe_example :
    ((export_bundle {E = ℕ} ended.manager ≡ err no_cert)
      ⊎ ((bundle : Bundle) × (export_bundle {E = ℕ} ended.manager ≡ ok bundle)
          × Makes strict bundle (get_certificate ended.manager)))
    × (export_private_key strict ended.manager ≢ panic)
    × (export_account strict ended.manager ≢ panic)
unfolding run step start apply waits lookup insert delete create_account import_bundle
    export_private_key request_names trim_suffix authorize export_bundle
interleaved_safe_example = interleaved_safe strict 0 acts ended (λ k h. ground (arith, h)) refl

-- The request waits, and the key 5 is in its place.
abbrev waiting : Managing ℕ ℕ ℕ
waiting = record {
  manager = record ended.manager { cert_pkey = some 5; stored_pem = imported };
  requests = (1, record { signer = 9; pem = some (9 ∷ []) }) ∷ [];
}

finish_signer_example :
    (t : Managing ℕ ℕ ℕ) × (step strict waiting (finish 1 certifying) ≡ some t)
    × (lookup 1 t.requests ≡ none)
    × ((t.manager ≡ waiting.manager)
        ⊎ ((t.manager.cert_pkey ≡ some 9)
            × ((chain : List Text) × (order_chain strict certifying ≡ ok chain)
                × (t.manager.stored_pem ≡ record { private_key = 9 ∷ []; chain = chain }))))
unfolding lookup pem_to_key
finish_signer_example =
    finish_signer strict certifying 9 waiting 1 (9 ∷ []) refl
      (λ chain cert k ordered pairing parsing. ground (arith, parsing))
