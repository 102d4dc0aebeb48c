-- ===== src/Server/Leader.antt =====
-- server/leader.go: the choice of the leader after each change of membership, and the timer that
-- runs the leader's certificate checks. `handleMembershipChange`, `leaderTimer` and the checks are
-- goroutines: an event is one of their actions, and an action that would wait is no step.
pub mod Election
pub mod Timer
use t.Prelude.{
  ℕ, ◌+◌, ◌-◌, ◌^◌, Bool, true, false, not, ◌&&◌, Option, none, some, List, [], ◌∷◌, ◌++◌, ltb,
  ◌==◌, if◌then◌else◌,
}

-- The loop over the peers, from `^uint64(0)`.
lowest_from : ℕ → List ℕ → ℕ
lowest_from low [] = low
lowest_from low (peer ∷ peers) = lowest_from (if ltb peer low then peer else low) peers

unfoldable pub lowest : List ℕ → ℕ
unfolding lowest_from
lowest peers = lowest_from (2 ^ 64 - 1) peers

-- `append(s.peers.Snapshot(), s.PeerID())`
abbrev pub view : ℕ → List ℕ → List ℕ
view self snapshot = snapshot ++ self ∷ []

-- What `handleMembershipChange` has to send before its next round, if anything.
pub data Telling : Type 0 where
  told tell_start tell_stop : Telling

-- `starts` and `stops` say whether a value waits in the channels `startLeader` and `stopLeader`,
-- which hold one. `timer` says whether the timer runs; `checking` is how many checks are running,
-- and `returning` how many of them are over and wait to send to `startLeader`. `stuck` says that
-- `leaderTimer` waits to send to `stopLeader`, from which it alone receives.
pub record Leadership : Type 0 where
  pub self : ℕ
  pub current : ℕ
  pub telling : Telling
  pub starts : Bool
  pub stops : Bool
  pub timer : Bool
  pub checking : ℕ
  pub returning : ℕ
  pub stuck : Bool

-- Of `handleMembershipChange`: `changed snapshot` is a round up to the send, and `tell` is the send. Of `leaderTimer`: `take_start` and
-- `take_stop` receive, `fire` is the end of the timer. `check_over` is the end of a check, and
-- `send_start` its send.
pub data Event : Type 0 where
  changed : List ℕ → Event
  tell : Event
  take_start : Event
  take_stop : Event
  fire : Event
  check_over : Event
  send_start : Event

abbrev pub when {ℓ} : {A : Type ℓ} → Bool → A → Option A
when b a = if b then some a else none

-- The new leader is stored, and the timer is to be told.
change : ℕ → Leadership → Leadership
change low s =
    if s.current == low
    then s
    else if s.self == low
    then record s { current = low; telling = tell_start }
    else record s { current = low; telling = tell_stop }

is_told : Telling → Bool
is_told told = true
is_told _ = false

-- A send waits until its channel has room.
send : Telling → Leadership → Option Leadership
send told s = none
send tell_start s = when (not s.starts) (record s { telling = told; starts = true })
send tell_stop s = when (not s.stops) (record s { telling = told; stops = true })

expire : Leadership → Leadership
expire s =
    if s.self == s.current
    then record s { timer = false; checking = s.checking + 1 }
    else if s.stops
    then record s { timer = false; stuck = true }
    else record s { timer = false; stops = true }

finish_check : Leadership → Leadership
finish_check s =
    if s.self == s.current
    then record s { checking = s.checking - 1; returning = s.returning + 1 }
    else record s { checking = s.checking - 1 }

unfoldable pub step : Leadership → Event → Option Leadership
unfolding change is_told send expire finish_check lowest
step s (changed snapshot) = when (is_told s.telling) (change (lowest (view s.self snapshot)) s)
step s tell = send s.telling s
step s take_start = when (s.starts && not s.stuck) (record s { starts = false; timer = true })
step s take_stop = when (s.stops && not s.stuck) (record s { stops = false; timer = false })
step s fire = when (s.timer && not s.stuck) (expire s)
step s check_over = when (ltb 0 s.checking) (finish_check s)
step s send_start =
    when (ltb 0 s.returning && not s.starts)
      (record s { starts = true; returning = s.returning - 1 })

-- A server that has just been started.
unfoldable pub start : ℕ → Leadership
start self = record {
  self = self;
  current = 0;
  telling = told;
  starts = false;
  stops = false;
  timer = false;
  checking = 0;
  returning = 0;
  stuck = false;
}

-- Nothing is known of a run in which an event is no step.
unfoldable pub run : Leadership → List Event → Option Leadership
unfolding step
run s [] = some s
run s (e ∷ es) = elim (step s e) [ none ↦ none | some t ↦ run t es ]
