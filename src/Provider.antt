-- ===== src/Provider.antt =====
-- provider/rfc2136.go: the provider that changes DNS records, by updates after RFC 2136 (the interface
-- is that of acme/provider.go).
pub mod Challenge
pub mod Signing
mod Runs
use t.Prelude.{ℕ, Bool, true, List, [], ◌∷◌, ◌++◌, Outcome, ok, err, panic, ◌==◌}

abbrev pub Text : Type 0
Text = List ℕ

pub record Rfc2136Config : Type 0 where
  pub tsig_key : Text
  pub tsig_algo : Text
  pub tsig_secret : Text
  pub nameserver : Text
  pub zone : Text

-- `tsig` is the map from the name of a key to its secret.
pub record Rfc2136 : Type 0 where
  pub conf : Rfc2136Config
  pub nameserver : Text
  pub algo : Text
  pub tsig : List (Text × Text)
  pub zone : Text

-- `NewRFC2136Provider`; `fqdn` is that of the DNS library.
unfoldable pub new_rfc2136_provider : (Text → Text) → Rfc2136Config → Rfc2136
new_rfc2136_provider fqdn conf = record {
  conf = conf;
  nameserver = conf.nameserver;
  algo = fqdn conf.tsig_algo;
  tsig = (fqdn conf.tsig_key, conf.tsig_secret) ∷ [];
  zone = fqdn conf.zone;
}

-- `dns.Client`, as far as it is set.
pub record Client : Type 0 where
  pub single_inflight : Bool
  pub tsig_secret : List (Text × Text)

unfoldable pub new_client : Rfc2136 → Client
new_client r = record { single_inflight = true; tsig_secret = r.tsig }

-- " 15 IN "
abbrev pub ttl_and_class : Text
ttl_and_class = 32 ∷ 49 ∷ 53 ∷ 32 ∷ 73 ∷ 78 ∷ 32 ∷ []

-- `fmt.Sprintf("%s.%s %d IN %s %s", host, r.zone, 15, t, value)`
unfoldable pub record_text : Rfc2136 → Text → Text → Text → Text
record_text r host kind content = host ++ 46 ∷ (r.zone ++ (ttl_and_class ++ (kind ++ 32 ∷ content)))

-- An update: the zone, what signs it, and its three kinds of change. `R` is the type of the
-- library's records.
pub record UpdateMsg (R : Type 0) : Type 0 where
  pub zone : Text
  pub tsig_key : Text
  pub tsig_algo : Text
  pub tsig_fudge : ℕ
  pub tsig_signed : ℕ
  pub removed_sets : List R
  pub removed : List R
  pub inserted : List R

-- `new_rr` parses a record, `now` is the time, and `exchange` sends an update by a client to a server,
-- for the code of its answer.
module _ {E R : Type 0} (new_rr : Text → Outcome E R) (now : ℕ)
    (exchange : Client → UpdateMsg R → Text → Outcome E ℕ) where
  abbrev pub unchanged : Rfc2136 → UpdateMsg R
  unchanged r = record {
    zone = r.zone;
    tsig_key = r.conf.tsig_key;
    tsig_algo = r.conf.tsig_algo;
    tsig_fudge = 300;
    tsig_signed = now;
    removed_sets = [];
    removed = [];
    inserted = [];
  }

  abbrev with_rr : Rfc2136 → Outcome E R → Outcome E (UpdateMsg R × List R)
  with_rr r (ok rr) = ok (unchanged r, rr ∷ [])
  with_rr r (err e) = err e
  with_rr r panic = panic

  unfoldable pub build_msg : Rfc2136 → Text → Text → Text → Outcome E (UpdateMsg R × List R)
  unfolding record_text
  build_msg r host kind content = with_rr r (new_rr (record_text r host kind content))

  -- Whether the server answered with success.
  abbrev answered : Outcome E ℕ → Outcome E Bool
  answered (ok code) = ok (code == 0)
  answered (err e) = err e
  answered panic = panic

  abbrev send_update : Rfc2136 → Outcome E (UpdateMsg R × List R) → Outcome E Bool
  send_update r (ok (m, rrs)) =
      answered
        (exchange (new_client r) (record m { removed_sets = rrs; inserted = rrs }) r.nameserver)
  send_update r (err e) = err e
  send_update r panic = panic

  abbrev send_remove : Rfc2136 → Outcome E (UpdateMsg R × List R) → Outcome E Bool
  send_remove r (ok (m, rrs)) =
      answered (exchange (new_client r) (record m { removed = rrs }) r.nameserver)
  send_remove r (err e) = err e
  send_remove r panic = panic

  unfoldable pub update : Rfc2136 → Text → Text → Text → Outcome E Bool
  unfolding build_msg new_client
  update r host kind content = send_update r (build_msg r host kind content)

  unfoldable pub remove : Rfc2136 → Text → Text → Text → Outcome E Bool
  unfolding build_msg new_client
  remove r host kind content = send_remove r (build_msg r host kind content)
