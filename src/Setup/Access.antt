-- ===== src/Setup/Access.antt =====
-- cmd/server/authz.go: which server names and which peers a node lets in.
use t.Prelude.{
  ◌-◌, ◌≡◌, ◌≢◌, refl, sym, ◌∙◌, ap, ◌⊎◌, inl, inr, Bool-cases, true, none, some, [], ◌∷◌, ◌++◌,
  length, take, drop, same, same_refl, take-append-drop, length-append, drop-length-append, arith,
}
use t.Acme.{Text}
use t.Setup.{has_suffix, check_client_sni}

same_sound : (s t : Text) → same s t ≡ true → s ≡ t
same_sound [] [] h = refl
same_sound [] (b ∷ t) h = absurd (ground (arith, h))
same_sound (a ∷ s) [] h = absurd (ground (arith, h))
same_sound (a ∷ s) (b ∷ t) h = ground (arith, h, same_sound s t)

has_suffix-append : (s suffix : Text) → has_suffix (s ++ suffix) suffix ≡ true
unfolding has_suffix
has_suffix-append s suffix =
    let rest : length (s ++ suffix) - length suffix ≡ length s =
      omega (arith, length-append s suffix) in
    ground (arith, rest, length-append s suffix, drop-length-append s suffix, same_refl suffix)

has_suffix_split :
    (s suffix : Text) → has_suffix s suffix ≡ true → (prefix : Text) × (s ≡ prefix ++ suffix)
unfolding has_suffix
has_suffix_split s suffix h =
    let n = length s - length suffix in
    let ending : drop n s ≡ suffix = same_sound (drop n s) suffix (ground (arith, h)) in
    (take n s, sym (take-append-drop n s) ∙ ap (λ (r : Text). take n s ++ r) ending)

-- A TLS client is let in if and only if its server name ends in the domain.
pub check_client_sni_lem :
    (domain name : Text)
    → ((check_client_sni domain name ≡ none) × ((prefix : Text) × (name ≡ prefix ++ domain)))
      ⊎ ((check_client_sni domain name ≡ some name) × ((prefix : Text) → name ≢ prefix ++ domain))
unfolding check_client_sni
check_client_sni_lem domain name = elim (Bool-cases (has_suffix name domain)) [
  | inl ends ↦ inl (ground (arith, ends), has_suffix_split name domain ends)
  | inr other ↦ inr (
    ground (arith, other),
    λ prefix e.
        let ends : has_suffix name domain ≡ true = rw e (has_suffix-append prefix domain) in
        ground (arith, other, ends),
  )
]
