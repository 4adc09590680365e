-- ===== src/Tests/Connectors.antt =====
-- The theorem on the closing of a consumer (src/vumi2/connectors.py) at a concrete run.
use vumi.Prelude.{
  ℕ, ◌+◌, ◌≡◌, refl, String, true, false, [], ◌∷◌, ◌⊎◌, inr, none, some, Result, ok, arith,
}
use vumi.Connectors.{
  Delivery, Consumer, Calls, returns, raises, cancelled, nacked, consume_message, new, start,
  queue_message, aclose, leave, Reachable, fresh, step, starts, queues, takes, settles, fails,
  leaves, closes,
}
use vumi.Connectors.Closing.{closed_settled}
use vumi.Connectors.Closing.Counts.{times, times_settled}

abbrev handle : String → Result String
handle body = ok body

abbrev delivery : Delivery
delivery = record { delivery_tag = 7; body = "{}" }

-- The acknowledgement fails.
abbrev no_ack : Calls
no_ack = record { is_cancelled = false; ack = raises; nack = returns }

-- The acknowledgement is cancelled.
abbrev ended : Calls
ended = record { is_cancelled = false; ack = cancelled; nack = returns }

-- What a failing acknowledgement leads to.
consume_message_runs :
    (consume_message handle no_ack delivery ≡ some (nacked 7))
    × (consume_message handle ended delivery ≡ none)
unfolding consume_message
consume_message_runs = (refl, refl)

-- The consumer is closed while it handles a delivery, which it then refuses.
run : (c : Consumer) × Reachable handle 1 c × (c.closed ≡ true)
unfolding new start queue_message aclose leave
run = (
  _,
  step
      (step
        (step
          (step
            (step (step fresh (starts refl)) (queues delivery (omega arith) (inr (omega arith))))
            (takes delivery [] refl (omega arith)))
          closes)
        (settles [] delivery [] no_ack (nacked 7) refl consume_message_runs.0))
      (leaves refl refl (omega arith)),
  refl,
)

-- The task ends while it handles a delivery.
lost_run :
    (c : Consumer) × Reachable handle 1 c
    × (c.closed ≡ true)
    × (c.settled ≡ [])
    × (c.lost ≡ delivery ∷ [])
unfolding new start queue_message leave
lost_run = (
  _,
  step
      (step (step (step fresh (starts refl)) (queues delivery (omega arith) (inr (omega arith))))
        (takes delivery [] refl (omega arith)))
      (fails [] delivery [] ended refl consume_message_runs.1),
  refl,
  refl,
  refl,
)

closed_settled_example :
    (run.0.handling ≡ [])
    × ((t : ℕ)
        → times t run.0.sent
          ≡ times t run.0.channel + (times_settled t run.0.settled + times t run.0.lost))
    × ((run.0.failed ≡ true)
        ⊎ ((run.0.closing ≡ true)
            × (run.0.channel ≡ [])
            × ((t : ℕ) → times_settled t run.0.settled ≡ times t run.0.sent)))
closed_settled_example = closed_settled handle 1 run.0 run.1 run.2
