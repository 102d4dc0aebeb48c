-- ===== src/Gateway/Serving/Moves.antt =====
-- gateway/alpn.go: what every action of the mux keeps.
use t.Prelude.{
  ℕ, suc, ◌+◌, ◌≤◌, ◌≡◌, refl, sym, ap, ◌∙◌, Bool, some, List, [], ◌∷◌, ◌++◌, All, length,
  length-append, arith,
}
use mathlib.Core.List.{append_assoc}
use t.Gateway.{listen_for, listener}
use t.Gateway.Serving.{
  Serving, Delivery, Mux, channel_capacity, new_mux, pick, of_channel, take_first,
}
use t.Gateway.Serving.Queues.{
  count, carried, HasListener, count-pick, carried-pick, All-pick, carried-append,
  of_channel-append, listens-listener, listens-listen_for, other_channels, carried-first, All-first,
}

-- What is kept of the mux.
pub record IsServing (m : Mux) : Type 0 where
  pub balanced :
      (x : ℕ)
      → count x m.arrived
        ≡ count x m.handshaking
          + carried x m.sending
          + carried x m.queued
          + carried x m.given
          + count x m.closed
  pub ordered : (ch : ℕ) → of_channel ch m.given ++ of_channel ch m.queued ≡ of_channel ch m.sent
  pub bounded : (ch : ℕ) → length (of_channel ch m.queued) ≤ channel_capacity
  pub heard_sending : All (HasListener m.table) m.sending
  pub heard_queued : All (HasListener m.table) m.queued
  pub heard_given : All (HasListener m.table) m.given

heard_more :
    (made : ℕ) (protos : List (List ℕ)) (table : List (List ℕ × ℕ)) (ds : List Delivery)
    → All (HasListener table) ds
    → All (HasListener (listen_for made protos table)) ds
heard_more made protos table [] v = tt
heard_more made protos table (d ∷ ds) (p, v) =
    (listens-listen_for made protos table d p, heard_more made protos table ds v)

All-snoc :
    (P : Delivery → Type 0) (ds : List Delivery) (d : Delivery)
    → All P ds
    → P d
    → All P (ds ++ d ∷ [])
All-snoc P [] d v p = (p, tt)
All-snoc P (e ∷ ds) d (q, v) p = (q, All-snoc P ds d v p)

pub listen-IsServing :
    (m : Mux) (protos : List (List ℕ))
    → IsServing m
    → IsServing (record m { table = listen_for m.made protos m.table; made = m.made + 1 })
listen-IsServing m protos v = record {
  balanced = v.balanced;
  ordered = v.ordered;
  bounded = v.bounded;
  heard_sending = heard_more m.made protos m.table m.sending v.heard_sending;
  heard_queued = heard_more m.made protos m.table m.queued v.heard_queued;
  heard_given = heard_more m.made protos m.table m.given v.heard_given;
}

pub arrive-IsServing :
    (m : Mux) (c : ℕ) (s : Serving)
    → IsServing m
    → IsServing (record m { serving = s; handshaking = c ∷ m.handshaking; arrived = c ∷ m.arrived })
unfolding count
arrive-IsServing m c s v = record {
  balanced = λ x. ground (arith, v.balanced x);
  ordered = v.ordered;
  bounded = v.bounded;
  heard_sending = v.heard_sending;
  heard_queued = v.heard_queued;
  heard_given = v.heard_given;
}

pub close-IsServing :
    (m : Mux) (n c : ℕ) (rest : List ℕ)
    → pick n m.handshaking ≡ some (c, rest)
    → IsServing m
    → IsServing (record m { handshaking = rest; closed = c ∷ m.closed })
unfolding count
close-IsServing m n c rest h v = record {
  balanced = λ x. ground (arith, v.balanced x, count-pick x n c m.handshaking rest h);
  ordered = v.ordered;
  bounded = v.bounded;
  heard_sending = v.heard_sending;
  heard_queued = v.heard_queued;
  heard_given = v.heard_given;
}

pub agree-IsServing :
    (m : Mux) (n c ch : ℕ) (proto : List ℕ) (rest : List ℕ)
    → pick n m.handshaking ≡ some (c, rest)
    → listener m.table proto ≡ some ch
    → IsServing m
    → IsServing (record m {
      handshaking = rest;
      sending = record { channel = ch; proto = proto; conn = c } ∷ m.sending;
    })
unfolding count carried
agree-IsServing m n c ch proto rest h found v = record {
  balanced = λ x. ground (arith, v.balanced x, count-pick x n c m.handshaking rest h);
  ordered = v.ordered;
  bounded = v.bounded;
  heard_sending = (listens-listener m.table proto ch found, v.heard_sending);
  heard_queued = v.heard_queued;
  heard_given = v.heard_given;
}

send_ordered :
    (m : Mux) (ch : ℕ) (d : Delivery)
    → of_channel ch m.given ++ of_channel ch m.queued ≡ of_channel ch m.sent
    → of_channel ch m.given ++ of_channel ch (m.queued ++ d ∷ []) ≡ of_channel ch (m.sent ++ d ∷ [])
send_ordered m ch d h =
    ap (λ ds. of_channel ch m.given ++ ds) (of_channel-append ch m.queued (d ∷ []))
    ∙ sym (append_assoc (of_channel ch m.given) (of_channel ch m.queued) (of_channel ch (d ∷ [])))
    ∙ ap (λ ds. ds ++ of_channel ch (d ∷ [])) h
    ∙ sym (of_channel-append ch m.sent (d ∷ []))

send_bounded :
    (m : Mux) (ch : ℕ) (d : Delivery)
    → suc (length (of_channel d.channel m.queued)) ≤ channel_capacity
    → length (of_channel ch m.queued) ≤ channel_capacity
    → length (of_channel ch (m.queued ++ d ∷ [])) ≤ channel_capacity
unfolding of_channel
send_bounded m ch d room h = ground (
  arith,
  of_channel-append ch m.queued (d ∷ []),
  length-append (of_channel ch m.queued) (of_channel ch (d ∷ [])),
)

pub send-IsServing :
    (m : Mux) (n : ℕ) (d : Delivery) (rest : List Delivery)
    → pick n m.sending ≡ some (d, rest)
    → suc (length (of_channel d.channel m.queued)) ≤ channel_capacity
    → IsServing m
    → IsServing (record m { sending = rest; queued = m.queued ++ d ∷ []; sent = m.sent ++ d ∷ [] })
unfolding carried of_channel
send-IsServing m n d rest h room v =
    let (p, w) = All-pick (HasListener m.table) n d m.sending rest h v.heard_sending in
    record {
      balanced = λ x. ground (
        arith,
        v.balanced x,
        carried-pick x n d m.sending rest h,
        carried-append x m.queued (d ∷ []),
      );
      ordered = λ ch. send_ordered m ch d (v.ordered ch);
      bounded = λ ch. send_bounded m ch d room (v.bounded ch);
      heard_sending = w;
      heard_queued = All-snoc (HasListener m.table) m.queued d v.heard_queued p;
      heard_given = v.heard_given;
    }

give_ordered :
    (m : Mux) (ch : ℕ) (d : Delivery) (rest : List Delivery)
    → of_channel ch m.queued ≡ of_channel ch (d ∷ []) ++ of_channel ch rest
    → of_channel ch m.given ++ of_channel ch m.queued ≡ of_channel ch m.sent
    → of_channel ch (m.given ++ d ∷ []) ++ of_channel ch rest ≡ of_channel ch m.sent
give_ordered m ch d rest found h =
    ap (λ ds. ds ++ of_channel ch rest) (of_channel-append ch m.given (d ∷ []))
    ∙ append_assoc (of_channel ch m.given) (of_channel ch (d ∷ [])) (of_channel ch rest)
    ∙ ap (λ ds. of_channel ch m.given ++ ds) (sym found)
    ∙ h

give_bounded :
    (m : Mux) (ch : ℕ) (d : Delivery) (rest : List Delivery)
    → of_channel ch m.queued ≡ of_channel ch (d ∷ []) ++ of_channel ch rest
    → length (of_channel ch m.queued) ≤ channel_capacity
    → length (of_channel ch rest) ≤ channel_capacity
give_bounded m ch d rest found h =
    ground (arith, found, length-append (of_channel ch (d ∷ [])) (of_channel ch rest))

pub give-IsServing :
    (m : Mux) (ch : ℕ) (d : Delivery) (rest : List Delivery)
    → take_first ch m.queued ≡ some (d, rest)
    → IsServing m
    → IsServing (record m { queued = rest; given = m.given ++ d ∷ [] })
unfolding carried of_channel
give-IsServing m ch d rest h v =
    let (p, w) = All-first (HasListener m.table) ch d m.queued rest h v.heard_queued in
    record {
      balanced = λ x. ground (
        arith,
        v.balanced x,
        carried-first x ch d m.queued rest h,
        carried-append x m.given (d ∷ []),
      );
      ordered = λ k. give_ordered m k d rest (other_channels ch k d m.queued rest h) (v.ordered k);
      bounded = λ k. give_bounded m k d rest (other_channels ch k d m.queued rest h) (v.bounded k);
      heard_sending = v.heard_sending;
      heard_queued = w;
      heard_given = All-snoc (HasListener m.table) m.given d v.heard_given p;
    }

pub moved-IsServing :
    (m : Mux) (s : Serving) (cancelled stopped : Bool)
    → IsServing m
    → IsServing (record m { serving = s; cancelled = cancelled; stopped = stopped })
moved-IsServing m s cancelled stopped v = record {
  balanced = v.balanced;
  ordered = v.ordered;
  bounded = v.bounded;
  heard_sending = v.heard_sending;
  heard_queued = v.heard_queued;
  heard_given = v.heard_given;
}

pub new_mux-IsServing : IsServing new_mux
unfolding new_mux count carried of_channel
new_mux-IsServing = record {
  balanced = λ x. omega arith;
  ordered = λ ch. refl;
  bounded = λ ch. omega arith;
  heard_sending = tt;
  heard_queued = tt;
  heard_given = tt;
}
