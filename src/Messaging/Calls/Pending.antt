-- ===== src/Messaging/Calls/Pending.antt =====
-- What a caller of messaging/rpc.go is promised, without the table, the goroutines and their phases.
use t.Prelude.{ℕ, ◌≡◌, ◌⊎◌, List, [], ◌∷◌, ◌++◌, ◌==◌, if◌then◌else◌}
use t.Messaging.Calls.{Result, replied, timed_out, gone}

-- A call is asked under a key, and ends at most once.
pub data Fate : Type 0 where
  unasked : Fate
  asked : ℕ → Fate
  ended : ℕ → Result → Fate

-- `inbox` holds the keys and the data of the replies that were taken and not given to a call.
pub record Pending : Type 0 where
  pub fate : ℕ → Fate
  pub inbox : List (ℕ × List ℕ)

unfoldable pub nothing_asked : Pending
nothing_asked = record { fate = λ id. unasked; inbox = [] }

abbrev Becomes : Pending → Pending → ℕ → Fate → Type 0
Becomes p q id f = (j : ℕ) → q.fate j ≡ (if id == j then f else p.fate j)

abbrev SameFates : Pending → Pending → Type 0
SameFates p q = (j : ℕ) → q.fate j ≡ p.fate j

-- A reply is given to a call that was asked under its key, and is then no longer there to give.
pub data Move (p q : Pending) : Type 0 where
  stay : SameFates p q → q.inbox ≡ p.inbox → Move p q
  ask :
      (id key : ℕ) → p.fate id ≡ unasked → Becomes p q id (asked key) → q.inbox ≡ p.inbox → Move p q
  take :
      (key : ℕ) (reply : List ℕ) → SameFates p q → q.inbox ≡ p.inbox ++ (key, reply) ∷ [] → Move p q
  give :
      (id key : ℕ) (reply : List ℕ) (before after : List (ℕ × List ℕ))
      → p.fate id ≡ asked key
      → p.inbox ≡ before ++ (key, reply) ∷ after
      → Becomes p q id (ended key (replied reply))
      → q.inbox ≡ before ++ after
      → Move p q
  fail :
      (id key : ℕ) (r : Result)
      → p.fate id ≡ asked key
      → (r ≡ timed_out) ⊎ (r ≡ gone)
      → Becomes p q id (ended key r)
      → q.inbox ≡ p.inbox
      → Move p q

pub data Reaches (p : Pending) : Pending → Type 0 where
  here : Reaches p p
  next : {q r : Pending} → Reaches p q → Move q r → Reaches p r
