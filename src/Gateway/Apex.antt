-- ===== src/Gateway/Apex.antt =====
-- gateway/apex.go, redirect.go, and `New` of gateway.go: what the gateway answers under its own name, and
-- over plain HTTP. `decimal` is `%d` of `fmt`.
use t.Prelude.{
  ℕ, ◌+◌, Option, none, some, List, [], ◌∷◌, ◌++◌, Outcome, ok, err, panic, not, ◌==◌,
  if◌then◌else◌,
}

abbrev pub colon : ℕ
colon = 58

-- `shared.Where`
pub record Where : Type 0 where
  pub addr : List ℕ
  pub port : ℕ

-- `apexServer`, without its templates.
pub record ApexServer : Type 0 where
  pub hostname : List ℕ
  pub host : List ℕ
  pub client_port : ℕ

module _ (decimal : ℕ → List ℕ) where
  -- `fmt.Sprintf("%s:%d", name, port)`
  abbrev pub with_port : List ℕ → ℕ → List ℕ
  with_port name port = name ++ colon ∷ decimal port

  -- The name of a domain as visitors write it.
  unfoldable pub visible_domain : List ℕ → ℕ → List ℕ
  visible_domain domain port = if not (port == 443) then with_port domain port else domain

  -- `New`; the arguments are what parsing the two templates comes to.
  unfoldable pub new_apex :
      {E : Type 0} → List ℕ → ℕ → Outcome E (Unit {0}) → Outcome E (Unit {0}) → Outcome E ApexServer
  unfolding visible_domain
  new_apex root port (ok _) (ok _) =
      ok (record { hostname = root; host = visible_domain root port; client_port = port })
  new_apex root port (ok _) (err e) = err e
  new_apex root port (ok _) panic = panic
  new_apex root port (err e) parsed = err e
  new_apex root port panic parsed = panic

  -- `RedirectHTTP`: the address that is listened at, if any.
  unfoldable pub redirect_addr : List ℕ → ℕ → Option (List ℕ)
  redirect_addr bind port = if not (port == 443) then none else some (with_port bind 80)

-- `handleLookup`, the answer under "/where"; `encode` is JSON.
unfoldable pub handle_lookup : (Where → List ℕ) → ApexServer → ℕ × List ℕ
handle_lookup encode a = (200, encode (record { addr = a.hostname; port = a.client_port }))

-- What the first template of the main page is given. `random` is `rand.Intn(50000)`.
pub record Page : Type 0 where
  pub host : List ℕ
  pub random_name : List ℕ
  pub port : ℕ

unfoldable pub page : ApexServer → List ℕ → ℕ → Page
page a name random = record { host = a.host; random_name = name; port = random + 1024 }

-- The parts of a URL.
pub record Url : Type 0 where
  pub scheme : List ℕ
  pub host : List ℕ
  pub path : List ℕ
  pub raw_query : List ℕ

-- "https"
abbrev pub https_name : List ℕ
https_name = 104 ∷ 116 ∷ 116 ∷ 112 ∷ 115 ∷ []

-- `httpRedirecter`: the status and the URL that it redirects a request to, by the host of the request and
-- its URL.
unfoldable pub http_redirecter : List ℕ → Url → ℕ × Url
http_redirecter host asked = (
  308,
  record { scheme = https_name; host = host; path = asked.path; raw_query = asked.raw_query },
)
