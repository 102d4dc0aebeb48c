-- ===== src/Mux/Quic/Closing.antt =====
-- mux/quic.go: how often a session and its `timeoutCh` are closed.
use t.Prelude.{if◌then◌else◌, inl, inr, Outcome-cases, ◌≤◌, ◌≡◌, true, List, [], ◌∷◌, ok, arith}
use t.Multiplexer.Config.{Config, validate}
use t.Mux.{Round, cancelled, accept_failed, accepted}
use t.Mux.Quic.{Quic, new_quic_peer, bye, null}

-- What the methods of a session do to its closing, in any order: `Bye`, `Null`, and the end of `Start`, which
-- is a `Bye`.
pub data Closing (F T : Type 0) : Type 0 where
  say_bye : Closing F T
  run_null : Round F T → Closing F T

-- The flags count the closes.
record IsSafe {S T : Type 0} (p : Quic S T) : Type 0 where
  pub timeouts : p.timeout_closes ≡ (if p.timeout_closed then 1 else 0)
  pub sessions : p.session_closes ≡ (if p.channel.closed then 1 else 0)
  pub told : p.channel.closed ≡ true → p.timeout_closed ≡ true

new_quic_peer-IsSafe :
    {S T : Type 0} (config : Config S) (p : Quic S T) → new_quic_peer config ≡ ok p → IsSafe p
unfolding new_quic_peer
new_quic_peer-IsSafe config p h = elim (Outcome-cases (validate config)) [
  | inl (u, e) ↦ ground (arith, e)
  | inr (inl (w, e)) ↦ ground (arith, e)
  | inr (inr e) ↦ ground (arith, e)
]

module _ {F S T : Type 0} where
  unfoldable pub closing : Quic S T → Closing F T → Quic S T
  unfolding bye null
  closing p say_bye = bye p
  closing p (run_null r) = null p r

  unfoldable pub closings : Quic S T → List (Closing F T) → Quic S T
  unfolding closing
  closings p [] = p
  closings p (c ∷ cs) = closings (closing p c) cs

  closing-IsSafe : (p : Quic S T) (c : Closing F T) → IsSafe p → IsSafe (closing p c)
  unfolding closing
  closing-IsSafe p say_bye v = ground arith
  closing-IsSafe p (run_null cancelled) v = ground arith
  closing-IsSafe p (run_null (accept_failed e)) v = ground arith
  closing-IsSafe p (run_null (accepted s got)) v = ground arith

  closings-IsSafe : (p : Quic S T) (cs : List (Closing F T)) → IsSafe p → IsSafe (closings p cs)
  unfolding closings
  closings-IsSafe p [] v = v
  closings-IsSafe p (c ∷ cs) v = closings-IsSafe (closing p c) cs (closing-IsSafe p c v)

  -- However often a new session is closed, by `Bye`, by the end of `Start` and by `Null`: its
  -- channel `timeoutCh` is closed at most once, and so is the session below it, and if the session
  -- was closed, so was the channel that tells of it.
  pub closings_once :
      (config : Config S) (p : Quic S T) (cs : List (Closing F T))
      → new_quic_peer config ≡ ok p
      → ((closings p cs).timeout_closes ≤ 1)
        × ((closings p cs).session_closes ≤ 1)
        × ((closings p cs).session_closes ≤ (closings p cs).timeout_closes)
  closings_once config p cs h =
      let v = closings-IsSafe p cs (new_quic_peer-IsSafe config p h) in ground (arith, v)
