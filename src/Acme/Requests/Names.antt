-- ===== src/Acme/Requests/Names.antt =====
-- acme/acme.go: the names and the challenge that `RequestCertificate` asks for, by the form of the
-- configured domain.
use t.Prelude.{
  same_refl, ℕ, ◌-◌, ◌≡◌, ◌≢◌, sym, ap, ◌∙◌, [], ◌∷◌, ◌++◌, ok, panic, length, length-append,
  drop-length-append, take-length-append, arith,
}
use mathlib.Core.List.{append_assoc}
use t.Acme.{Text}
use t.Acme.Requests.{trim_suffix, dot, star, challenge_label, request_names}

trim_suffix-append : (s suffix : Text) → trim_suffix (s ++ suffix) suffix ≡ s
unfolding trim_suffix
trim_suffix-append s suffix =
    let rest : length (s ++ suffix) - length suffix ≡ length s =
      omega (arith, length-append s suffix) in
    ground (
      arith,
      rest,
      length-append s suffix,
      drop-length-append s suffix,
      take-length-append s suffix,
      same_refl suffix,
    )

-- The part of a domain before its zone, without the dot between them.
trim_suffix-zone :
    (sub zone : Text) → trim_suffix (trim_suffix (sub ++ dot ∷ zone) zone) (dot ∷ []) ≡ sub
trim_suffix-zone sub zone =
    ap (λ d. trim_suffix (trim_suffix d zone) (dot ∷ [])) (sym (append_assoc sub (dot ∷ []) zone))
    ∙ ap (λ d. trim_suffix d (dot ∷ [])) (trim_suffix-append (sub ++ dot ∷ []) zone)
    ∙ trim_suffix-append sub (dot ∷ [])

-- For a domain under the zone that does not start with a star, the certificate is for that domain
-- alone, and the challenge is put below it.
pub request_names-subdomain :
    (c : ℕ) (sub zone : Text)
    → c ≢ star
    → request_names ((c ∷ sub) ++ dot ∷ zone) zone
      ≡ ok (record {
        host = challenge_label ++ dot ∷ c ∷ sub;
        common = (c ∷ sub) ++ dot ∷ zone;
        names = ((c ∷ sub) ++ dot ∷ zone) ∷ [];
      })
unfolding request_names
request_names-subdomain c [] zone plain = ground (arith, trim_suffix-zone (c ∷ []) zone)
request_names-subdomain c (d ∷ sub) zone plain = ground (arith, trim_suffix-zone (c ∷ d ∷ sub) zone)

-- For the wildcard of a domain under the zone, the certificate is for that domain and the wildcard,
-- and the challenge is put below the domain.
pub request_names-wildcard :
    (sub zone : Text)
    → request_names ((star ∷ dot ∷ sub) ++ dot ∷ zone) zone
      ≡ ok (record {
        host = challenge_label ++ dot ∷ sub;
        common = sub ++ dot ∷ zone;
        names = (sub ++ dot ∷ zone) ∷ ((star ∷ dot ∷ sub) ++ dot ∷ zone) ∷ [];
      })
unfolding request_names
request_names-wildcard sub zone = ground (arith, trim_suffix-zone (star ∷ dot ∷ sub) zone)

-- For the wildcard of the zone itself, `RequestCertificate` panics, whatever the zone is.
pub request_names-star : (zone : Text) → request_names (star ∷ dot ∷ zone) zone ≡ panic
unfolding request_names
request_names-star zone = ground (arith, trim_suffix-zone (star ∷ []) zone)
