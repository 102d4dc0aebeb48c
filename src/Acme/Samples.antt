-- ===== src/Acme/Samples.antt =====
-- A library for acme.go in which keys, accounts and certificates are numbers, and the PEM of a key
-- is the key alone; and a certificate authority that grants what it is asked for.
use t.Prelude.{ℕ, ◌≡◌, refl, Option, none, some, [], ◌∷◌, Outcome, ok, err, length, arith}
use t.Acme.{Text, Library}
use t.Acme.Accounts.Transfer.{IsFaithful}
use t.Acme.Requests.{Answers, done}

abbrev block_of : Text → Option Text
block_of [] = none
block_of (b ∷ bs) = some (b ∷ bs)

abbrev key_of : Text → Outcome ℕ ℕ
key_of [] = err 1
key_of (b ∷ bs) = ok b

abbrev pub plain : Library ℕ ℕ ℕ ℕ
plain = record {
  encode_key = λ k. ok (k ∷ []);
  pem_decode = block_of;
  parse_key = key_of;
  key_pair = λ chain key. ok (length chain);
  account_url = λ a. a ∷ [];
}

decoded :
    (k : ℕ) (pem : Text)
    → plain.encode_key k ≡ ok pem
    → (block : Text) × (plain.pem_decode pem ≡ some block) × (plain.parse_key block ≡ ok k)
decoded k [] encoding = ground (arith, encoding)
decoded k (b ∷ bs) encoding = (b ∷ bs, refl, ground (arith, encoding))

pub plain-IsFaithful : IsFaithful plain
plain-IsFaithful = record { decodes = decoded }

-- "io"
abbrev pub zone : Text
zone = 105 ∷ 111 ∷ []

abbrev pub granting : Answers ℕ ℕ
granting = record {
  generated = ok 9;
  signed = λ k names. ok tt;
  ordered = ok (done ∷ done ∷ []);
  chain = ok ((1 ∷ []) ∷ []);
  saved = none;
}
