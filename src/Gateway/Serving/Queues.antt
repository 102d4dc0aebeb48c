-- ===== src/Gateway/Serving/Queues.antt =====
-- gateway/alpn.go: the lists of connections between `handshake` and `Accept`.
use t.Prelude.{
  ℕ, zero, suc, ◌+◌, ◌≡◌, refl, Bool, true, false, ◌&&◌, ◌||◌, Option, none, some, List, [], ◌∷◌,
  ◌++◌, All, same, ◌==◌, Bool-cases, inl, inr, if◌then◌else◌, sym, arith,
}
use mathlib.Core.Path.{subst}
use t.Gateway.{listen_for, listener}
use t.Gateway.Serving.{Delivery, pick, with_head, of_channel, take_first}

-- How often a connection stands in a list.
unfoldable pub count : ℕ → List ℕ → ℕ
count x [] = 0
count x (y ∷ ys) = let rest = count x ys in if x == y then suc rest else rest

-- How often a connection stands among deliveries.
unfoldable pub carried : ℕ → List Delivery → ℕ
carried x [] = 0
carried x (d ∷ ds) = let rest = carried x ds in if x == d.conn then suc rest else rest

-- Whether a channel was made for a list of protocols with this one among them.
unfoldable pub listens : List (List ℕ × ℕ) → List ℕ → ℕ → Bool
listens [] proto ch = false
listens ((name, made) ∷ table) proto ch = (same name proto && made == ch) || listens table proto ch

abbrev pub HasListener : List (List ℕ × ℕ) → Delivery → Type 0
HasListener table d = listens table d.proto d.channel ≡ true

module _ {ℓ} {A : Type ℓ} where
  head_cases :
      (x y : A) (o : Option (A × List A)) (rest : List A)
      → with_head x o ≡ some (y, rest)
      → (ys : List A) × (o ≡ some (y, ys)) × (rest ≡ x ∷ ys)
  unfolding with_head
  head_cases x y none rest h = cc
  head_cases x y (some (z, zs)) rest h = (zs, ground (arith, h), ground (arith, h))

pub count-pick :
    (x n c : ℕ) (xs rest : List ℕ) → pick n xs ≡ some (c, rest) → count x xs ≡ count x (c ∷ rest)
unfolding count pick
count-pick x n c [] rest h = cc
count-pick x zero c (y ∷ ys) rest h = ground (arith, h)
count-pick x (suc n) c (y ∷ ys) rest h =
    let (zs, found, shape) = head_cases y c (pick n ys) rest h in
    ground (arith, count-pick x n c ys zs found, shape)

pub carried-pick :
    (x n : ℕ) (d : Delivery) (ds rest : List Delivery)
    → pick n ds ≡ some (d, rest)
    → carried x ds ≡ carried x (d ∷ rest)
unfolding carried pick
carried-pick x n d [] rest h = cc
carried-pick x zero d (e ∷ ds) rest h = ground (arith, h)
carried-pick x (suc n) d (e ∷ ds) rest h =
    let (es, found, shape) = head_cases e d (pick n ds) rest h in
    ground (arith, carried-pick x n d ds es found, shape)

pub All-pick :
    (P : Delivery → Type 0) (n : ℕ) (d : Delivery) (ds rest : List Delivery)
    → pick n ds ≡ some (d, rest)
    → All P ds
    → All P (d ∷ rest)
unfolding pick
All-pick P n d [] rest h v = cc
All-pick P zero d (e ∷ ds) rest h v =
    let first : (e ∷ ds) ≡ (d ∷ rest) = ground (arith, h) in subst (All P) first v
All-pick P (suc n) d (e ∷ ds) rest h (p, v) =
    let (es, found, shape) = head_cases e d (pick n ds) rest h in
    let (q, w) = All-pick P n d ds es found v in (q, subst (All P) (sym shape) (p, w))

pub carried-append :
    (x : ℕ) (ds es : List Delivery) → carried x (ds ++ es) ≡ carried x ds + carried x es
unfolding carried
carried-append x [] es = omega arith
carried-append x (d ∷ ds) es = ground (arith, carried-append x ds es)

pub of_channel-append :
    (ch : ℕ) (ds es : List Delivery)
    → of_channel ch (ds ++ es) ≡ of_channel ch ds ++ of_channel ch es
unfolding of_channel
of_channel-append ch [] es = refl
of_channel-append ch (d ∷ ds) es = ground (arith, of_channel-append ch ds es)

pub listens-listener :
    (table : List (List ℕ × ℕ)) (proto : List ℕ) (ch : ℕ)
    → listener table proto ≡ some ch
    → listens table proto ch ≡ true
unfolding listener listens
listens-listener [] proto ch h = ground arith
listens-listener ((name, made) ∷ table) proto ch h = ground (arith, listens-listener table proto ch)

pub listens-listen_for :
    (made : ℕ) (protos : List (List ℕ)) (table : List (List ℕ × ℕ)) (d : Delivery)
    → HasListener table d
    → HasListener (listen_for made protos table) d
unfolding listen_for listens
listens-listen_for made [] table d h = h
listens-listen_for made (p ∷ protos) table d h =
    listens-listen_for made protos ((p, made) ∷ table) d (ground (arith, h))

-- What `take_first` finds is for the channel, the first for it, and taken out of the list.
pub first_channel :
    (ch : ℕ) (d : Delivery) (ds rest : List Delivery)
    → take_first ch ds ≡ some (d, rest)
    → (d.channel ≡ ch) × (of_channel ch ds ≡ d ∷ of_channel ch rest)
unfolding take_first of_channel
first_channel ch d [] rest h = cc
first_channel ch d (e ∷ ds) rest h = elim (Bool-cases (e.channel == ch)) [
  | inl here ↦ ground (arith, here, h)
  | inr there ↦
      let (es, found, shape) = head_cases e d (take_first ch ds) rest (ground (arith, there, h)) in
      ground (arith, there, shape, first_channel ch d ds es found)
]

pub other_channels :
    (ch k : ℕ) (d : Delivery) (ds rest : List Delivery)
    → take_first ch ds ≡ some (d, rest)
    → of_channel k ds ≡ of_channel k (d ∷ []) ++ of_channel k rest
unfolding take_first of_channel
other_channels ch k d [] rest h = cc
other_channels ch k d (e ∷ ds) rest h = elim (Bool-cases (e.channel == ch)) [
  | inl here ↦ ground (arith, here, h)
  | inr there ↦
      let (es, found, shape) = head_cases e d (take_first ch ds) rest (ground (arith, there, h)) in
      ground
        (arith, there, shape, (first_channel ch d ds es found).0, other_channels ch k d ds es found)
]

pub carried-first :
    (x ch : ℕ) (d : Delivery) (ds rest : List Delivery)
    → take_first ch ds ≡ some (d, rest)
    → carried x ds ≡ carried x (d ∷ rest)
unfolding take_first carried
carried-first x ch d [] rest h = cc
carried-first x ch d (e ∷ ds) rest h = elim (Bool-cases (e.channel == ch)) [
  | inl here ↦ ground (arith, here, h)
  | inr there ↦
      let (es, found, shape) = head_cases e d (take_first ch ds) rest (ground (arith, there, h)) in
      ground (arith, carried-first x ch d ds es found, shape)
]

pub All-first :
    (P : Delivery → Type 0) (ch : ℕ) (d : Delivery) (ds rest : List Delivery)
    → take_first ch ds ≡ some (d, rest)
    → All P ds
    → All P (d ∷ rest)
unfolding take_first
All-first P ch d [] rest h v = cc
All-first P ch d (e ∷ ds) rest h (p, v) = elim (Bool-cases (e.channel == ch)) [
  | inl here ↦
      let first : (e ∷ ds) ≡ (d ∷ rest) = ground (arith, here, h) in subst (All P) first (p, v)
  | inr there ↦
      let (es, found, shape) = head_cases e d (take_first ch ds) rest (ground (arith, there, h)) in
      let (q, w) = All-first P ch d ds es found v in (q, subst (All P) (sym shape) (p, w))
]
