-- ===== src/Server/Certificates.antt =====
-- server/leader.go, messaging.go and gossip.go: how the leader looks after the account and the
-- certificate, and how they get to the other nodes, by announcements and on a join.
pub mod Spreading
pub mod Joining
pub mod Accounts
mod Runs
use t.Prelude.{
  ℕ, ◌+◌, ◌*◌, Bool, true, false, not, ◌&&◌, ◌||◌, Option, none, some, List, [], ◌∷◌, Outcome, ok,
  err, panic, ltb, ◌==◌, if◌then◌else◌,
}
use t.Messaging.Message.{Message, message_acme_account_key, message_client_certs}
use t.Acme.{
  Text, AcmeError, no_account, account_exists, no_cert, AccountFile, Bundle, CertManager, Library,
  Effect,
}
use t.Acme.Accounts.{export_account, create_account, import_account, load_account}
use t.Acme.Certificates.{import_bundle, export_bundle, get_certificate}
use t.Acme.Requests.{Answers, request_certificate}

-- What a node sends to one that joins. A pointer may be nil.
pub record AcmeSynchronization : Type 0 where
  pub from : ℕ
  pub account_file : Option AccountFile
  pub bundle : Option Bundle

-- `encoding/json` on the values that are sent.
pub record Codec (E : Type 0) : Type 0 where
  pub encode_account : AccountFile → Outcome E Text
  pub decode_account : Text → Outcome E AccountFile
  pub encode_bundle : Bundle → Outcome E Text
  pub decode_bundle : Text → Outcome E Bundle
  pub encode_sync : AcmeSynchronization → Outcome E Text
  pub decode_sync : Text → Outcome E AcmeSynchronization

-- A parsed certificate: the names in it, and the time of its end in seconds.
pub record Leaf : Type 0 where
  pub dns_names : List Text
  pub not_after : ℕ

starts_with : Text → Text → Bool
starts_with s [] = true
starts_with [] (b ∷ prefix) = false
starts_with (a ∷ s) (b ∷ prefix) = a == b && starts_with s prefix

-- `strings.Contains`
unfoldable pub contains_text : Text → Text → Bool
unfolding starts_with
contains_text [] part = starts_with [] part
contains_text (a ∷ s) part = starts_with (a ∷ s) part || contains_text s part

names_domain : Text → List Text → Bool
names_domain domain [] = false
names_domain domain (name ∷ names) = contains_text domain name || names_domain domain names

-- The last certificate of the chain that has a name within the domain.
unfoldable pub find_leaf : Text → List Leaf → Option Leaf
unfolding names_domain
find_leaf domain [] = none
find_leaf domain (x ∷ xs) = elim (find_leaf domain xs) [
  | some leaf ↦ some leaf
  | none ↦ if names_domain domain x.dns_names then some x else none
]

abbrev thirty_days : ℕ
thirty_days = 30 * 24 * 3600

module _ {E K A C : Type 0} (lib : Library E K A C) (codec : Codec E) where
  -- The end of `checkACMEAccountKeys`: the bytes that are announced, if any.
  abbrev encoded_account : Outcome (AcmeError E) AccountFile → Option Text
  encoded_account (ok file) = elim (codec.encode_account file) [ ok b ↦ some b | _ ↦ none ]
  encoded_account _ = none

  abbrev announce_account : CertManager K A C → CertManager K A C × Option Text
  announce_account c = (c, encoded_account (export_account lib c))

  abbrev after_create : Effect E K A C (Unit {0}) → CertManager K A C × Option Text
  after_create (c, ok _) = announce_account c
  after_create (c, _) = (c, none)

  -- What the library, the disk and the random numbers answer in one check of the account. Nothing is
  -- announced after a panic, which ends the process.
  module _ (opened : Outcome E (Option AccountFile)) (updated : K → Text → A × Option E)
      (generated : Outcome E K) (registered : K → A × Option E) (saved : Option E) where
    abbrev after_load : Effect E K A C (Unit {0}) → CertManager K A C × Option Text
    after_load (c, err no_account) = after_create (create_account lib generated registered saved c)
    after_load (c, panic) = (c, none)
    after_load (c, _) = announce_account c

    abbrev without_account :
        CertManager K A C → Outcome (AcmeError E) AccountFile → CertManager K A C × Option Text
    without_account c (err no_account) = after_load (load_account lib updated opened c)
    without_account c _ = (c, none)

    unfoldable pub check_account_keys : CertManager K A C → CertManager K A C × Option Text
    unfolding export_account create_account
    check_account_keys c = without_account c (export_account lib c)

  -- The end of `checkACMECerts`: the bundle is announced if it is new.
  abbrev encoded_bundle : Bool → Outcome (AcmeError E) Bundle → Option Text
  encoded_bundle true (ok bundle) = elim (codec.encode_bundle bundle) [ ok b ↦ some b | _ ↦ none ]
  encoded_bundle _ _ = none

  abbrev announce_bundle : Bool → CertManager K A C → CertManager K A C × Option Text
  announce_bundle renewed c = (c, encoded_bundle renewed (export_bundle c))

  abbrev after_renewal : Effect E K A C (Unit {0}) → CertManager K A C × Option Text
  after_renewal (c, ok _) = announce_bundle true c
  after_renewal (c, _) = (c, none)

  -- `parse` is `x509.ParseCertificate` on each certificate of a chain; `now` is the time in seconds.
  module _ (parse : C → Outcome E (List Leaf)) (now : ℕ) (domain zone own_domain : Text)
      (first renewal : Answers E K) where
    abbrev renew_if_expiring :
        Bool → CertManager K A C → Option Leaf → CertManager K A C × Option Text
    renew_if_expiring renewed c none = (c, none)
    renew_if_expiring renewed c (some leaf) =
        if ltb leaf.not_after (now + thirty_days)
        then after_renewal (request_certificate lib renewal domain zone c)
        else announce_bundle renewed c

    abbrev inspect :
        Bool → CertManager K A C → Outcome E (List Leaf) → CertManager K A C × Option Text
    inspect renewed c (ok leaves) = renew_if_expiring renewed c (find_leaf own_domain leaves)
    inspect renewed c _ = (c, none)

    abbrev with_certificate : Bool → CertManager K A C → Option C → CertManager K A C × Option Text
    with_certificate renewed c none = (c, none)
    with_certificate renewed c (some cert) = inspect renewed c (parse cert)

    abbrev with_bundle :
        Bool → CertManager K A C → Outcome (AcmeError E) Bundle → CertManager K A C × Option Text
    with_bundle renewed c (ok bundle) = with_certificate renewed c (get_certificate c)
    with_bundle renewed c _ = (c, none)

    abbrev after_request : Effect E K A C (Unit {0}) → CertManager K A C × Option Text
    after_request (c, ok _) = with_bundle true c (export_bundle c)
    after_request (c, _) = (c, none)

    abbrev check_bundle :
        CertManager K A C → Outcome (AcmeError E) Bundle → CertManager K A C × Option Text
    check_bundle c (err no_cert) = after_request (request_certificate lib first domain zone c)
    check_bundle c other = with_bundle false c other

    -- `checkACMECerts`; `domain` and `zone` are those of the manager's configuration, `own_domain`
    -- that of the server's.
    unfoldable pub check_certs : CertManager K A C → CertManager K A C × Option Text
    unfolding find_leaf
    check_certs c = check_bundle c (export_bundle c)

  -- `handlePeerMessaging` on one message; `debug` is the flag, which leaves the files alone.
  module _ (updated : K → Text → A × Option E) (saved : Option E) (debug : Bool) where
    abbrev import_received : CertManager K A C → Outcome E AccountFile → CertManager K A C
    import_received c (ok file) = (import_account lib updated saved file (not debug) c).0
    import_received c _ = c

    abbrev install_received : CertManager K A C → Outcome E Bundle → CertManager K A C
    install_received c (ok bundle) = (import_bundle lib saved bundle (not debug) c).0
    install_received c _ = c

    unfoldable pub handle_message : CertManager K A C → Message → CertManager K A C
    handle_message c m =
        if m.kind == message_acme_account_key
        then import_received c (codec.decode_account m.payload)
        else if m.kind == message_client_certs
        then install_received c (codec.decode_bundle m.payload)
        else c

    -- After the account of a join: an account that is there already is no obstacle.
    abbrev then_bundle : Bundle → Effect E K A C (Unit {0}) → CertManager K A C
    then_bundle bundle (c, ok _) = (import_bundle lib saved bundle (not debug) c).0
    then_bundle bundle (c, err account_exists) = (import_bundle lib saved bundle (not debug) c).0
    then_bundle bundle (c, _) = c

    abbrev synchronize :
        ℕ → CertManager K A C → Option AccountFile → Option Bundle → ℕ → CertManager K A C
    synchronize self c (some file) (some bundle) from =
        if from == self
        then c
        else then_bundle bundle (import_account lib updated saved file (not debug) c)
    synchronize self c _ _ from = c

    abbrev joined_with : ℕ → CertManager K A C → Outcome E AcmeSynchronization → CertManager K A C
    joined_with self c (ok as') = synchronize self c as'.account_file as'.bundle as'.from
    joined_with self c _ = c

    -- `MergeRemoteState(buf, true)` at the node `self`
    unfoldable pub merge_join : ℕ → CertManager K A C → Text → CertManager K A C
    merge_join self c [] = c
    merge_join self c (b ∷ bs) = joined_with self c (codec.decode_sync (b ∷ bs))

  abbrev join_bytes : ℕ → Outcome (AcmeError E) AccountFile → Outcome (AcmeError E) Bundle → Text
  join_bytes self (ok file) (ok bundle) =
      let as' : AcmeSynchronization = record {
        from = self;
        account_file = some file;
        bundle = some bundle;
      } in
      elim (codec.encode_sync as') [ ok b ↦ b | _ ↦ [] ]
  join_bytes self _ _ = []

  -- `LocalState(true)`; nil is the empty buffer.
  unfoldable pub local_join : ℕ → CertManager K A C → Text
  local_join self c = join_bytes self (export_account lib c) (export_bundle c)
