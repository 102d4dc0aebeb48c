-- ===== src/Acme/Interleaving/Safety.antt =====
-- acme/acme.go: what a `CertManager` gives out, however its operations interleave.
use t.Prelude.{
  ℕ, Bool, true, false, ◌≡◌, ◌≢◌, ◌⊎◌, Option, none, some, List, [], ◌∷◌, Outcome, ok, err, panic,
  inl, inr, Bool-cases, Option-cases, lookup, if◌then◌else◌, arith,
}
use mathlib.Core.Path.{subst}
use t.Acme.{Text, AcmeError, no_cert, Bundle, CertManager, Library, Effect}
use t.Acme.Accounts.{export_account}
use t.Acme.Certificates.{export_bundle, export_private_key, get_certificate}
use t.Acme.Requests.{
  Answers, Naming, request_names, certificate_key, make_key, install, order_chain,
}
use t.Acme.Operations.{Operation, apply}
use t.Acme.Operations.Kept.{
  IsWhole, import_bundle-IsWhole, apply-IsWhole, new_manager-IsWhole, export_account-panic,
  export_private_key-panic,
}
use t.Acme.Operations.Paired.{Makes, IsPaired, import_bundle-IsPaired, apply-IsPaired}
use t.Acme.Interleaving.{
  Running, Managing, Action, operate, begin, export_key, finish, waits, start, begin_signed,
  begin_keyed, begin_named, exported, bundled, finished, step, run,
}

-- What is kept of the manager.
record IsSafe {E K A C : Type 0} (lib : Library E K A C) (c : CertManager K A C) : Type 0 where
  pub whole : IsWhole c
  pub paired : IsPaired lib c

module _ {E K A C : Type 0} (lib : Library E K A C) where
  -- The state after a step, if there is one, is safe.
  abbrev StaysSafe : Option (Managing K A C) → Type 0
  StaysSafe none = Unit
  StaysSafe (some s) = IsSafe lib s.manager

  new_key-IsSafe :
      (k : K) (c : CertManager K A C)
      → IsSafe lib c
      → IsSafe lib (record c { cert_pkey = some k; has_cert_pkey = true })
  new_key-IsSafe k c v = record { whole = ground (arith, v.whole); paired = v.paired }

  make_key-IsSafe :
      (answers : Answers E K) (c : CertManager K A C) (o : Outcome E K)
      → IsSafe lib c
      → IsSafe lib (make_key lib answers c o).0
  make_key-IsSafe answers c (ok k) v = new_key-IsSafe k c v
  make_key-IsSafe answers c (err e) v = v
  make_key-IsSafe answers c panic v = v

  certificate_key-IsSafe :
      (answers : Answers E K) (c : CertManager K A C) (o : Option K)
      → IsSafe lib c
      → IsSafe lib (certificate_key lib answers c o).0
  certificate_key-IsSafe answers c none v = make_key-IsSafe answers c answers.generated v
  certificate_key-IsSafe answers c (some k) v = v

  install-IsSafe :
      (answers : Answers E K) (c : CertManager K A C) (o : Outcome (AcmeError E) Bundle)
      → IsSafe lib c
      → IsSafe lib (install lib answers c o).0
  install-IsSafe answers c (ok bundle) v = record {
    whole = import_bundle-IsWhole lib answers.saved bundle true c v.whole;
    paired = import_bundle-IsPaired lib answers.saved bundle true c v.paired;
  }
  install-IsSafe answers c (err e) v = v
  install-IsSafe answers c panic v = v

  begin_signed-StaysSafe :
      (id : ℕ) (s : Managing K A C) (k : K) (o : Outcome E (Unit {0}))
      → IsSafe lib s.manager
      → StaysSafe (begin_signed lib id s k o)
  begin_signed-StaysSafe id s k (ok u) v = v
  begin_signed-StaysSafe id s k (err e) v = v
  begin_signed-StaysSafe id s k panic v = tt

  begin_keyed-StaysSafe :
      (id : ℕ) (answers : Answers E K) (names : List Text) (s : Managing K A C)
      (r : Effect E K A C K)
      → IsSafe lib r.0
      → StaysSafe (begin_keyed lib id answers names s r)
  begin_keyed-StaysSafe id answers names s (c, ok k) v =
      begin_signed-StaysSafe id (record s { manager = c }) k (answers.signed k names) v
  begin_keyed-StaysSafe id answers names s (c, err e) v = v
  begin_keyed-StaysSafe id answers names s (c, panic) v = tt

  begin_named-StaysSafe :
      (id : ℕ) (answers : Answers E K) (s : Managing K A C) (o : Outcome (Unit {0}) Naming)
      → IsSafe lib s.manager
      → StaysSafe (begin_named lib id answers s o)
  begin_named-StaysSafe id answers s (ok naming) v =
      begin_keyed-StaysSafe id answers naming.names s
        (certificate_key lib answers s.manager s.manager.cert_pkey)
        (certificate_key-IsSafe answers s.manager s.manager.cert_pkey v)
  begin_named-StaysSafe id answers s (err e) v = tt
  begin_named-StaysSafe id answers s panic v = tt

  begin_allowed-StaysSafe :
      (id : ℕ) (answers : Answers E K) (s : Managing K A C) (o : Outcome (Unit {0}) Naming)
      (allowed : Bool)
      → IsSafe lib s.manager
      → StaysSafe (if allowed then begin_named lib id answers s o else some s)
  begin_allowed-StaysSafe id answers s o true v = begin_named-StaysSafe id answers s o v
  begin_allowed-StaysSafe id answers s o false v = v

  exported-StaysSafe :
      (id : ℕ) (s : Managing K A C) (r : Running K) (o : Outcome (AcmeError E) Text)
      → IsSafe lib s.manager
      → StaysSafe (exported lib id s r o)
  exported-StaysSafe id s r (ok pem) v = v
  exported-StaysSafe id s r (err e) v = v
  exported-StaysSafe id s r panic v = tt

  operated-StaysSafe :
      (s : Managing K A C) (o : Operation E K A) (waiting : Bool)
      → IsSafe lib s.manager
      → StaysSafe (if waiting then none else some (record s { manager = apply lib s.manager o }))
  operated-StaysSafe s o true v = tt
  operated-StaysSafe s o false v = record {
    whole = apply-IsWhole lib s.manager o v.whole;
    paired = apply-IsPaired lib s.manager o v.paired;
  }

  finished-StaysSafe :
      (id : ℕ) (answers : Answers E K) (s : Managing K A C) (o : Option Text)
      → IsSafe lib s.manager
      → StaysSafe (elim o [ some pem ↦ some (finished lib id answers s pem) | none ↦ none ])
  finished-StaysSafe id answers s (some pem) v =
      install-IsSafe answers s.manager (bundled lib pem (order_chain lib answers)) v
  finished-StaysSafe id answers s none v = tt

  step-StaysSafe :
      (s : Managing K A C) (a : Action E K A) → IsSafe lib s.manager → StaysSafe (step lib s a)
  unfolding step
  step-StaysSafe s (operate o) v = operated-StaysSafe s o (waits o s.requests) v
  step-StaysSafe s (begin id answers domain zone) v = elim (Option-cases (lookup id s.requests)) [
    | inl free ↦
        rw (free, step)
          (begin_allowed-StaysSafe id answers s (request_names domain zone) s.manager.has_acc v)
    | inr (r, busy) ↦ rw (busy, step) tt
  ]
  step-StaysSafe s (export_key id) v = elim (Option-cases (lookup id s.requests)) [
    | inl idle ↦ rw (idle, step) tt
    | inr (r, there) ↦
        rw (there, step) (exported-StaysSafe id s r (export_private_key lib s.manager) v)
  ]
  step-StaysSafe s (finish id answers) v = elim (Option-cases (lookup id s.requests)) [
    | inl idle ↦ rw (idle, step) tt
    | inr (r, there) ↦ rw (there, step) (finished-StaysSafe id answers s r.pem v)
  ]

  run-StaysSafe :
      (s : Managing K A C) (acts : List (Action E K A))
      → IsSafe lib s.manager
      → StaysSafe (run lib s acts)
  unfolding run
  run-StaysSafe s [] v = v
  run-StaysSafe s (a ∷ acts) v = elim (Option-cases (step lib s a)) [
    | inl stuck ↦ rw (stuck, run) tt
    | inr (t, stepped) ↦
        rw (stepped, run) (run-StaysSafe t acts (subst StaysSafe stepped (step-StaysSafe s a v)))
  ]

  start-IsSafe : (zero : A) → IsSafe lib (start zero).manager
  unfolding start
  start-IsSafe zero = record { whole = new_manager-IsWhole lib zero; paired = λ h. cc }

  exported-Makes :
      (c : CertManager K A C) (bundle : Bundle)
      → IsSafe lib c
      → export_bundle {E = E} c ≡ ok bundle
      → Makes lib bundle (get_certificate c)
  unfolding export_bundle get_certificate
  exported-Makes c bundle v h = elim (Bool-cases c.has_cert) [
    | inl there ↦
        let same : c.stored_pem ≡ bundle = ground (arith, there, h) in
        rw (there, ← same) (v.paired there)
    | inr missing ↦ absurd (ground (arith, missing, h))
  ]

  -- A manager has no certificate to export, or serves the one that its bundle makes.
  exported_cases :
      (c : CertManager K A C)
      → IsSafe lib c
      → (export_bundle {E = E} c ≡ err no_cert)
        ⊎ ((bundle : Bundle) × (export_bundle {E = E} c ≡ ok bundle)
            × Makes lib bundle (get_certificate c))
  unfolding export_bundle
  exported_cases c v = elim (Bool-cases c.has_cert) [
    | inl there ↦
        let exporting : export_bundle {E = E} c ≡ ok c.stored_pem = ground (arith, there) in
        inr (c.stored_pem, exporting, exported-Makes c c.stored_pem v exporting)
    | inr missing ↦ inl (ground (arith, missing))
  ]

  -- However the operations of any number of goroutines on a new manager interleave, with imports
  -- while requests are on their way, if the encoding of keys does not panic: either the manager
  -- answers that it has no certificate, or it exports a bundle, and serves the certificate that
  -- this bundle makes; and neither export of a key panics.
  pub interleaved_safe :
      (zero : A) (acts : List (Action E K A)) (s : Managing K A C)
      → ((k : K) → lib.encode_key k ≢ panic)
      → run lib (start zero) acts ≡ some s
      → ((export_bundle {E = E} s.manager ≡ err no_cert)
          ⊎ ((bundle : Bundle) × (export_bundle {E = E} s.manager ≡ ok bundle)
              × Makes lib bundle (get_certificate s.manager)))
        × (export_private_key lib s.manager ≢ panic)
        × (export_account lib s.manager ≢ panic)
  interleaved_safe zero acts s encodes ran =
      let v : IsSafe lib s.manager =
        subst StaysSafe ran (run-StaysSafe (start zero) acts (start-IsSafe zero)) in
      (
        exported_cases s.manager v,
        export_private_key-panic lib s.manager encodes v.whole,
        export_account-panic lib s.manager encodes v.whole,
      )
