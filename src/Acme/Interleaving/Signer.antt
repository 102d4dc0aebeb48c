-- ===== src/Acme/Interleaving/Signer.antt =====
-- acme/acme.go: the end of a request during which another key was imported.
use t.Prelude.{
  ℕ, ◌≡◌, refl, ◌⊎◌, inl, inr, true, none, some, List, Outcome, ok, err, panic, lookup,
  lookup-delete, arith,
}
use t.Acme.{Text, AcmeError, CertManager, Library, pem_to_key}
use t.Acme.Certificates.{join}
use t.Acme.Certificates.Cases.{import_bundle_cases}
use t.Acme.Requests.{Answers, install, order_chain}
use t.Acme.Interleaving.{Managing, finish, bundled, finished, step}

module _ {E K A C : Type 0} (lib : Library E K A C) (answers : Answers E K) (signer : K) where
  -- The chain is for the key that signed the request, and `X509KeyPair` refuses any other key.
  abbrev pub IsFor : Text → Type 0
  IsFor pem =
      (chain : List Text) (cert : C) (k : K)
      → order_chain lib answers ≡ ok chain
      → lib.key_pair (join chain) pem ≡ ok cert
      → pem_to_key lib pem ≡ ok k
      → k ≡ signer

  install-signer :
      (c : CertManager K A C) (pem : Text) (o : Outcome (AcmeError E) (List Text))
      → order_chain lib answers ≡ o
      → IsFor pem
      → ((install lib answers c (bundled lib pem o)).0 ≡ c)
        ⊎ (((install lib answers c (bundled lib pem o)).0.cert_pkey ≡ some signer)
            × ((chain : List Text) × (order_chain lib answers ≡ ok chain)
                × ((install lib answers c (bundled lib pem o)).0.stored_pem
                    ≡ record { private_key = pem; chain = chain })))
  install-signer c pem (ok chain) ordered refuses =
      elim (import_bundle_cases lib answers.saved (record { private_key = pem; chain = chain }) true
        c) [
          | inl (k, cert, parsing, pairing, e) ↦ inr (
            rw e (ground (arith, refuses chain cert k ordered pairing parsing)),
            (chain, ordered, rw e refl),
          )
          | inr e ↦ inl e
        ]
  install-signer c pem (err e) ordered refuses = inl refl
  install-signer c pem panic ordered refuses = inl refl

  -- The chain that the authority gives is for the key that signed the request, and no other key is
  -- paired with it. Then a request that has exported a key, whatever was imported since it signed,
  -- can end, and its end either leaves the manager as it was, or leaves it with the key that signed
  -- the request, and with a bundle of that chain and the exported key.
  pub finish_signer :
      (s : Managing K A C) (id : ℕ) (pem : Text)
      → lookup id s.requests ≡ some (record { signer = signer; pem = some pem })
      → IsFor pem
      → (t : Managing K A C) × (step lib s (finish id answers) ≡ some t)
        × (lookup id t.requests ≡ none)
        × ((t.manager ≡ s.manager)
            ⊎ ((t.manager.cert_pkey ≡ some signer)
                × ((chain : List Text) × (order_chain lib answers ≡ ok chain)
                    × (t.manager.stored_pem ≡ record { private_key = pem; chain = chain }))))
  unfolding step
  finish_signer s id pem there refuses = (
    finished lib id answers s pem,
    rw (there, step) refl,
    ground (arith, lookup-delete id id s.requests),
    install-signer s.manager pem (order_chain lib answers) refl refuses,
  )
