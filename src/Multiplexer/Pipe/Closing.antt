-- ===== src/Multiplexer/Pipe/Closing.antt =====
-- multiplexer/pipe.go: how the two ways of a pipe come to an end.
use t.Prelude.{
  ℕ, ◌+◌, ◌<◌, ◌≤◌, ◌≡◌, refl, sym, Bool, true, false, none, some, Option-cases, Bool-cases, ◌⊎◌,
  inl, inr, List, [], ◌∷◌, ◌++◌, length, length-append, arith,
}
use t.Multiplexer.Pipe.{
  Copying, copying, closing_source, closing_destination, sending, returned, Pipe, Event,
  copied_left, copied_right, act_left, act_right, wait_group, take_error, connect, go_left,
  go_right, finish, receive, step, run,
}

-- How many errors a goroutine may yet send, how many actions it may yet take after its copy, and
-- whether it has closed the connection that it closes first, or both.
may_send : {F : Type 0} → Copying F → ℕ
may_send returned = 0
may_send copying = 1
may_send (closing_source r) = 1
may_send (closing_destination r) = 1
may_send (sending e) = 1

abbrev pub remaining : {F : Type 0} → Copying F → ℕ
remaining returned = 0
remaining copying = 4
remaining (closing_source r) = 3
remaining (closing_destination r) = 2
remaining (sending e) = 1

abbrev past_first : {F : Type 0} → Copying F → Bool
past_first returned = true
past_first copying = false
past_first (closing_source r) = false
past_first (closing_destination r) = true
past_first (sending e) = true

abbrev pub past_both : {F : Type 0} → Copying F → Bool
past_both returned = true
past_both copying = false
past_both (closing_source r) = false
past_both (closing_destination r) = false
past_both (sending e) = true

module _ {F : Type 0} where
  record IsSafe (p : Pipe F) : Type 0 where
    pub room : length p.errors + may_send p.left + may_send p.right ≤ 2
    pub ended : p.errors_closed ≡ true → may_send p.left + may_send p.right ≡ 0
    pub calm : p.panicked ≡ false
    pub left_first : past_first p.left ≡ true → p.src_closed ≡ true
    pub right_first : past_first p.right ≡ true → p.dst_closed ≡ true
    pub left_both : past_both p.left ≡ true → (p.src_closed ≡ true) × (p.dst_closed ≡ true)
    pub right_both : past_both p.right ≡ true → (p.src_closed ≡ true) × (p.dst_closed ≡ true)

  go_left-IsSafe :
      (p q : Pipe F) (c : Copying F) → p.left ≡ c → IsSafe p → go_left p c ≡ some q → IsSafe q
  unfolding go_left may_send
  go_left-IsSafe p q copying e v h = absurd (ground (arith, h))
  go_left-IsSafe p q returned e v h = absurd (ground (arith, h))
  go_left-IsSafe p q (closing_source r) e v h = ground (arith, e, v, h)
  go_left-IsSafe p q (closing_destination none) e v h = ground (arith, e, v, h)
  go_left-IsSafe p q (closing_destination (some f)) e v h = ground (arith, e, v, h)
  go_left-IsSafe p q (sending f) e v h = ground (arith, e, v, h, length-append p.errors (f ∷ []))

  go_right-IsSafe :
      (p q : Pipe F) (c : Copying F) → p.right ≡ c → IsSafe p → go_right p c ≡ some q → IsSafe q
  unfolding go_right may_send
  go_right-IsSafe p q copying e v h = absurd (ground (arith, h))
  go_right-IsSafe p q returned e v h = absurd (ground (arith, h))
  go_right-IsSafe p q (closing_source r) e v h = ground (arith, e, v, h)
  go_right-IsSafe p q (closing_destination none) e v h = ground (arith, e, v, h)
  go_right-IsSafe p q (closing_destination (some f)) e v h = ground (arith, e, v, h)
  go_right-IsSafe p q (sending f) e v h = ground (arith, e, v, h, length-append p.errors (f ∷ []))

  receive-IsSafe :
      (p q : Pipe F) (es : List F) → p.errors ≡ es → IsSafe p → receive p es ≡ some q → IsSafe q
  unfolding receive
  receive-IsSafe p q [] e v h = ground (arith, e, v, h)
  receive-IsSafe p q (f ∷ es) e v h = ground (arith, e, v, h)

  step-IsSafe : (p q : Pipe F) (e : Event F) → IsSafe p → step p e ≡ some q → IsSafe q
  unfolding step may_send finish
  step-IsSafe p q (copied_left r) v h = ground (arith, v, h)
  step-IsSafe p q (copied_right r) v h = ground (arith, v, h)
  step-IsSafe p q act_left v h = go_left-IsSafe p q p.left refl v h
  step-IsSafe p q act_right v h = go_right-IsSafe p q p.right refl v h
  step-IsSafe p q wait_group v h = ground (arith, v, h)
  step-IsSafe p q take_error v h = receive-IsSafe p q p.errors refl v h

  connect-IsSafe : IsSafe connect
  unfolding connect may_send
  connect-IsSafe = ground arith

  run-IsSafe : (p q : Pipe F) (es : List (Event F)) → IsSafe p → run p es ≡ some q → IsSafe q
  unfolding run
  run-IsSafe p q [] v h = let same : p ≡ q = ground (arith, h) in rw (sym same) v
  run-IsSafe p q (e ∷ es) v h = elim (Option-cases (step p e)) [
    | inl stuck ↦ absurd (ground (arith, h, stuck))
    | inr (o, stepped) ↦
        run-IsSafe o q es (step-IsSafe p o e v stepped) (ground (arith, h, stepped))
  ]

  act_left_moves :
      (p : Pipe F) (c : Copying F)
      → p.left ≡ c
      → IsSafe p
      → (c ≡ copying)
        ⊎ ((c ≡ returned)
            ⊎ ((q : Pipe F) × (go_left p c ≡ some q) × (remaining q.left < remaining c)))
  unfolding go_left may_send
  act_left_moves p copying e v = inl refl
  act_left_moves p returned e v = inr (inl refl)
  act_left_moves p (closing_source r) e v =
      inr (inr (record p { src_closed = true; left = closing_destination r }, refl, omega arith))
  act_left_moves p (closing_destination none) e v =
      inr (inr (record p { dst_closed = true; left = returned }, refl, omega arith))
  act_left_moves p (closing_destination (some f)) e v =
      inr (inr (record p { dst_closed = true; left = sending f }, refl, omega arith))
  act_left_moves p (sending f) e v = inr (
      inr (
        record p { errors = p.errors ++ f ∷ []; left = returned },
        ground (arith, e, v),
        omega arith,
      ))

  act_right_moves :
      (p : Pipe F) (c : Copying F)
      → p.right ≡ c
      → IsSafe p
      → (c ≡ copying)
        ⊎ ((c ≡ returned)
            ⊎ ((q : Pipe F) × (go_right p c ≡ some q) × (remaining q.right < remaining c)))
  unfolding go_right may_send
  act_right_moves p copying e v = inl refl
  act_right_moves p returned e v = inr (inl refl)
  act_right_moves p (closing_source r) e v =
      inr (inr (record p { dst_closed = true; right = closing_destination r }, refl, omega arith))
  act_right_moves p (closing_destination none) e v =
      inr (inr (record p { src_closed = true; right = returned }, refl, omega arith))
  act_right_moves p (closing_destination (some f)) e v =
      inr (inr (record p { src_closed = true; right = sending f }, refl, omega arith))
  act_right_moves p (sending f) e v = inr (
      inr (
        record p { errors = p.errors ++ f ∷ []; right = returned },
        ground (arith, e, v),
        omega arith,
      ))

  -- After any run of `Connect`: nothing was sent on its channel after that was closed, the channel
  -- holds at most two errors, and each of the two goroutines either has not yet closed both
  -- connections, or both are closed.
  pub pipe_closes :
      (p : Pipe F) (es : List (Event F))
      → run connect es ≡ some p
      → (p.panicked ≡ false)
        × (length p.errors ≤ 2)
        × ((past_both p.left ≡ false) ⊎ ((p.src_closed ≡ true) × (p.dst_closed ≡ true)))
        × ((past_both p.right ≡ false) ⊎ ((p.src_closed ≡ true) × (p.dst_closed ≡ true)))
  pipe_closes p es h =
      let v = run-IsSafe connect p es connect-IsSafe h in
      (
        v.calm,
        omega (arith, v.room),
        elim (Bool-cases (past_both p.left)) [
          | inl past ↦ inr (v.left_both past)
          | inr before ↦ inl before
        ],
        elim (Bool-cases (past_both p.right)) [
          | inl past ↦ inr (v.right_both past)
          | inr before ↦ inl before
        ],
      )

  -- After any run of `Connect`, each of the two goroutines is in its copy, has returned, or can act
  -- at once, whether or not anybody receives the errors, and its action brings it closer to its
  -- return, which is at most three actions away.
  pub pipe_ends :
      (p : Pipe F) (es : List (Event F))
      → run connect es ≡ some p
      → ((p.left ≡ copying)
          ⊎ ((p.left ≡ returned)
              ⊎ ((q : Pipe F) × (step p act_left ≡ some q)
                  × (remaining q.left < remaining p.left))))
        × ((p.right ≡ copying)
            ⊎ ((p.right ≡ returned)
                ⊎ ((q : Pipe F) × (step p act_right ≡ some q)
                    × (remaining q.right < remaining p.right))))
  unfolding step
  pipe_ends p es h =
      let v = run-IsSafe connect p es connect-IsSafe h in
      (act_left_moves p p.left refl v, act_right_moves p p.right refl v)
