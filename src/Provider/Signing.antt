-- ===== src/Provider/Signing.antt =====
-- provider/rfc2136.go: which secret signs an update.
use t.Prelude.{
  ℕ, ◌≡◌, ◌≢◌, Bool, Bool-cases, inl, inr, none, some, Option, List, [], ◌∷◌, Outcome, ok, err,
  Outcome-cases, same, eq_of_same, if◌then◌else◌, arith,
}
use t.Provider.{
  Text, Rfc2136Config, Client, UpdateMsg, new_rfc2136_provider, new_client, record_text, unchanged,
  update, remove,
}

-- The secret of a key in the map of a client.
abbrev pub secret_of : Text → List (Text × Text) → Option Text
secret_of key [] = none
secret_of key ((name, secret) ∷ rest) = if same name key then some secret else secret_of key rest

-- The library refuses an update whose key the client has no secret for. Then a provider whose key is
-- not written as a fully qualified name fails at every update and every removal.
pub unqualified_fails :
    {E R : Type 0} (fqdn : Text → Text) (new_rr : Text → Outcome E R) (now : ℕ)
    (exchange : Client → UpdateMsg R → Text → Outcome E ℕ) (conf : Rfc2136Config)
    (host kind content : Text) (b : Bool)
    → ((c : Client) (m : UpdateMsg R) (server : Text)
        → secret_of m.tsig_key c.tsig_secret ≡ none
        → (e : E) × (exchange c m server ≡ err e))
    → fqdn conf.tsig_key ≢ conf.tsig_key
    → let r = new_rfc2136_provider fqdn conf in
      (update new_rr now exchange r host kind content ≢ ok b)
      × (remove new_rr now exchange r host kind content ≢ ok b)
unfolding update remove new_client new_rfc2136_provider
unqualified_fails {E = E} {R = R} fqdn new_rr now exchange conf host kind content b refuses bare =
    let r = new_rfc2136_provider fqdn conf in
    let plain = unchanged new_rr now exchange r in
    let c = new_client r in
    elim (Bool-cases (same (fqdn conf.tsig_key) conf.tsig_key)) [
      | inl e ↦ absurd (bare (eq_of_same (fqdn conf.tsig_key) conf.tsig_key e))
      | inr e ↦ elim (Outcome-cases (new_rr (record_text r host kind content))) [
        | inl (rr, parsed) ↦
            let unknown : secret_of conf.tsig_key c.tsig_secret ≡ none = ground (arith, e) in
            let (e1, refused) =
              refuses c (record plain { removed_sets = rr ∷ []; inserted = rr ∷ [] }) r.nameserver
                unknown in
            let (e2, refused') =
              refuses c (record plain { removed = rr ∷ [] }) r.nameserver unknown in
            (ground (arith, parsed, refused), ground (arith, parsed, refused'))
        | inr failing ↦ (ground (arith, failing), ground (arith, failing))
      ]
    ]
