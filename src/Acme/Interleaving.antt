-- ===== src/Acme/Interleaving.antt =====
-- acme/acme.go: the operations of several goroutines on one `CertManager`. Each holds its locks from its
-- first look at the state to its last, but for `RequestCertificate`: that holds the lock of the
-- account throughout, and the lock of the private key only while it makes and uses the key, again
-- while it exports it, and in the import at its end. It is three actions here.
pub mod Safety
pub mod Signer
mod Runs
use t.Prelude.{
  ℕ, Bool, true, false, ◌||◌, Option, none, some, List, [], ◌∷◌, Outcome, ok, err, panic,
  if◌then◌else◌, Map, lookup, insert, delete,
}
use t.Acme.{Text, AcmeError, Bundle, CertManager, Library, Effect, new_manager}
use t.Acme.Certificates.{export_private_key}
use t.Acme.Requests.{Answers, Naming, request_names, certificate_key, order_chain, install}
use t.Acme.Operations.{
  Operation, create, import_file, import_key, import_certificates, request, apply,
}

-- A request on its way: the key that signed it, and the key that it has exported, if it has.
pub record Running (K : Type 0) : Type 0 where
  pub signer : K
  pub pem : Option Text

pub record Managing (K A C : Type 0) : Type 0 where
  pub manager : CertManager K A C
  pub requests : Map (Running K)

pub data Action (E K A : Type 0) : Type 0 where
  operate : Operation E K A → Action E K A
  begin : ℕ → Answers E K → Text → Text → Action E K A
  export_key : ℕ → Action E K A
  finish : ℕ → Answers E K → Action E K A

-- An operation on the account waits for the requests to end; a whole request is no action.
unfoldable pub waits : {E K A : Type 0} → Operation E K A → Map (Running K) → Bool
waits (create generated registered saved) [] = false
waits (create generated registered saved) (r ∷ rs) = true
waits (import_file updated saved file persist) [] = false
waits (import_file updated saved file persist) (r ∷ rs) = true
waits (import_key pem) rs = false
waits (import_certificates saved bundle persist) rs = false
waits (request answers domain zone) rs = true

unfoldable pub start : {K A C : Type 0} → A → Managing K A C
unfolding new_manager
start zero = record { manager = new_manager zero; requests = [] }

-- A panic ends the process, and is no step.
module _ {E K A C : Type 0} (lib : Library E K A C) where
  abbrev pub begin_signed : ℕ → Managing K A C → K → Outcome E (Unit {0}) → Option (Managing K A C)
  begin_signed id s k (ok _) =
      some (record s { requests = insert id (record { signer = k; pem = none }) s.requests })
  begin_signed id s k (err e) = some s
  begin_signed id s k panic = none

  abbrev pub begin_keyed :
      ℕ → Answers E K → List Text → Managing K A C → Effect E K A C K → Option (Managing K A C)
  begin_keyed id answers names s (c, ok k) =
      begin_signed id (record s { manager = c }) k (answers.signed k names)
  begin_keyed id answers names s (c, err e) = some (record s { manager = c })
  begin_keyed id answers names s (c, panic) = none

  abbrev pub begin_named :
      ℕ → Answers E K → Managing K A C → Outcome (Unit {0}) Naming → Option (Managing K A C)
  begin_named id answers s (ok naming) =
      begin_keyed id answers naming.names s
        (certificate_key lib answers s.manager s.manager.cert_pkey)
  begin_named id answers s _ = none

  abbrev pub exported :
      ℕ → Managing K A C → Running K → Outcome (AcmeError E) Text → Option (Managing K A C)
  exported id s r (ok pem) =
      some (record s { requests = insert id (record r { pem = some pem }) s.requests })
  exported id s r (err e) = some (record s { requests = delete id s.requests })
  exported id s r panic = none

  abbrev pub bundled : Text → Outcome (AcmeError E) (List Text) → Outcome (AcmeError E) Bundle
  bundled pem (ok chain) = ok (record { private_key = pem; chain = chain })
  bundled pem (err e) = err e
  bundled pem panic = panic

  -- The end of a request, with what it has exported.
  abbrev pub finished : ℕ → Answers E K → Managing K A C → Text → Managing K A C
  finished id answers s pem = record {
    manager = (install lib answers s.manager (bundled pem (order_chain lib answers))).0;
    requests = delete id s.requests;
  }

  unfoldable pub step : Managing K A C → Action E K A → Option (Managing K A C)
  step s (operate o) =
      if waits o s.requests then none else some (record s { manager = apply lib s.manager o })
  step s (begin id answers domain zone) = elim (lookup id s.requests) [
    | some r ↦ none
    | none ↦
        if s.manager.has_acc then begin_named id answers s (request_names domain zone) else some s
  ]
  step s (export_key id) = elim (lookup id s.requests) [
    | some r ↦ exported id s r (export_private_key lib s.manager)
    | none ↦ none
  ]
  step s (finish id answers) = elim (lookup id s.requests) [
    | some r ↦ elim r.pem [ some pem ↦ some (finished id answers s pem) | none ↦ none ]
    | none ↦ none
  ]

  unfoldable pub run : Managing K A C → List (Action E K A) → Option (Managing K A C)
  run s [] = some s
  run s (a ∷ acts) = elim (step s a) [ some s' ↦ run s' acts | none ↦ none ]
