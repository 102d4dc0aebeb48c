-- ===== src/Multiplexer/Channel/Delivery.antt =====
-- multiplexer/channel.go: what comes out of a channel, and when nothing goes in any more.
use t.Prelude.{
  ℕ, ◌+◌, ◌≤◌, ◌≡◌, refl, inl, inr, Bool, true, false, some, Option-cases, not, ◌&&◌, List, [], ◌∷◌,
  ◌++◌, length, length-append, sym, ap, ◌∙◌, arith,
}
use mathlib.Core.List.{append-nil, append_assoc}
use t.Multiplexer.Channel.{
  Running, idle, forwarding, shutting, ended, Channel, Event, call_run, put, forward, receive,
  call_close, close_closer, cancel, see_done, see_closer, test_closed, close_outgoing,
  outgoing_capacity, new_channel, step, run,
}

abbrev count : Bool → ℕ
count true = 1
count false = 0

module _ {ℓ} {A : Type ℓ} where
  -- The stream that `Run` is about to send on.
  abbrev pub held : Running A → List A
  held (forwarding x) = x ∷ []
  held _ = []

  -- The streams whose `Put` returned.
  unfoldable pub handed_over : List (Event A) → List A
  handed_over [] = []
  handed_over (put x ∷ es) = x ∷ handed_over es
  handed_over (e ∷ es) = handed_over es

  handed_over-append :
      (e : Event A) (es : List (Event A))
      → handed_over (e ∷ []) ++ handed_over es ≡ handed_over (e ∷ es)
  unfolding handed_over
  handed_over-append (put x) es = refl
  handed_over-append e es = ground arith

  -- The flags and channels that go with where `Run` stands.
  abbrev agrees : Running A → Bool → Bool → Bool → Bool
  agrees idle started ch_closed shut = not started && not ch_closed && not shut
  agrees shutting started ch_closed shut = started && ch_closed && not shut
  agrees ended started ch_closed shut = started && ch_closed && shut
  agrees _ started ch_closed shut = started && not ch_closed && not shut

  record IsSafe (c : Channel A) : Type 0 where
    pub whole : c.panicked ≡ false
    pub agreeing : agrees c.running c.started c.ch_closed c.outgoing_closed ≡ true
    pub bounded : length c.outgoing ≤ outgoing_capacity
    pub one_close : c.closing + count c.closer_closed ≡ count c.closed

  step-IsSafe : (c d : Channel A) (e : Event A) → step c e ≡ some d → IsSafe c → IsSafe d
  unfolding step
  step-IsSafe c d call_run h v = ground arith
  step-IsSafe c d (put x) h v = ground arith
  step-IsSafe c d forward h v = grind (arith, length-append)
  step-IsSafe c d receive h v = ground arith
  step-IsSafe c d call_close h v = ground arith
  step-IsSafe c d close_closer h v = ground arith
  step-IsSafe c d cancel h v = ground arith
  step-IsSafe c d see_done h v = ground arith
  step-IsSafe c d see_closer h v = ground arith
  step-IsSafe c d test_closed h v = ground arith
  step-IsSafe c d close_outgoing h v = ground arith

  -- What was received, what waits, and what `Run` holds.
  abbrev through : Channel A → List A
  through c = c.received ++ (c.outgoing ++ held c.running)

  step-through :
      (c d : Channel A) (e : Event A)
      → IsSafe c
      → step c e ≡ some d
      → through d ≡ through c ++ handed_over (e ∷ [])
  unfolding step handed_over
  step-through c d call_run v h = ground (arith, v.agreeing, append-nil (through c))
  step-through c d (put x) v h =
      ground (arith, v.agreeing, append-nil c.outgoing, append_assoc c.received c.outgoing (x ∷ []))
  step-through c d forward v h =
      ground (arith, v.agreeing, append-nil (through c), append-nil d.outgoing)
  step-through c d receive v h = grind (arith, append-nil, append_assoc)
  step-through c d call_close v h = ground (arith, v.agreeing, append-nil (through c))
  step-through c d close_closer v h = ground (arith, v.agreeing, append-nil (through c))
  step-through c d cancel v h = ground (arith, v.agreeing, append-nil (through c))
  step-through c d see_done v h = ground (arith, v.agreeing, append-nil (through c))
  step-through c d see_closer v h = ground (arith, v.agreeing, append-nil (through c))
  step-through c d test_closed v h = ground (arith, v.agreeing, append-nil (through c))
  step-through c d close_outgoing v h = ground (arith, v.agreeing, append-nil (through c))

  run-IsSafe :
      (c d : Channel A) (es : List (Event A))
      → IsSafe c
      → run c es ≡ some d
      → IsSafe d × (through d ≡ through c ++ handed_over es)
  unfolding run handed_over
  run-IsSafe c d [] v h = ground (arith, append-nil (through c))
  run-IsSafe c d (e ∷ es) v h = elim (Option-cases (step c e)) [
    | inl stop ↦ ground (arith, stop)
    | inr (m, go) ↦
        let (w, rest) = run-IsSafe m d es (step-IsSafe c m e go v) (ground (arith, go)) in
        (
          w,
          rest
              ∙ ap (λ b. b ++ handed_over es) (step-through c m e v go)
              ∙ append_assoc (through c) (handed_over (e ∷ [])) (handed_over es)
              ∙ ap (λ b. through c ++ b) (handed_over-append e es),
        )
  ]

  new_channel-IsSafe : IsSafe new_channel
  unfolding new_channel
  new_channel-IsSafe = record {
    whole = refl;
    agreeing = refl;
    bounded = omega arith;
    one_close = refl;
  }

  -- From `NewChannel`, however the actions of `Put`, `Run`, `Close` and the consumer interleave:
  -- nothing is sent on a closed channel and no channel is closed twice; at most 32 streams wait;
  -- and the streams whose `Put` met `Run` are, in order, those received, those that wait, and the
  -- one that `Run` holds, if any.
  pub channel_safe :
      (d : Channel A) (es : List (Event A))
      → run new_channel es ≡ some d
      → (d.panicked ≡ false)
        × (length d.outgoing ≤ outgoing_capacity)
        × (d.received ++ (d.outgoing ++ held d.running) ≡ handed_over es)
  unfolding new_channel
  channel_safe d es h =
      let (v, all) = run-IsSafe new_channel d es new_channel-IsSafe h in (v.whole, v.bounded, all)

  step-ended :
      (c d : Channel A) (e : Event A)
      → c.running ≡ ended
      → c.started ≡ true
      → step c e ≡ some d
      → (d.running ≡ ended) × (d.started ≡ true) × (handed_over (e ∷ []) ≡ [])
  unfolding step handed_over
  step-ended c d (put x) k l h = ground arith
  step-ended c d e k l h = ground arith

  -- Once `Run` has returned, no `Put` returns any more, whatever happens.
  pub put_after_end :
      (c d : Channel A) (es : List (Event A))
      → c.running ≡ ended
      → c.started ≡ true
      → run c es ≡ some d
      → handed_over es ≡ []
  unfolding run handed_over
  put_after_end c d [] k l h = refl
  put_after_end c d (e ∷ es) k l h = elim (Option-cases (step c e)) [
    | inl stop ↦ ground (arith, stop)
    | inr (m, go) ↦
        let (k', l', none_now) = step-ended c m e k l go in
        sym (handed_over-append e es)
        ∙ ap (λ b. b ++ handed_over es) none_now
        ∙ put_after_end m d es k' l' (ground (arith, go))
  ]
