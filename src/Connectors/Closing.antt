-- ===== src/Connectors/Closing.antt =====
-- What a `Consumer` (src/vumi2/connectors.py) has done when it is closed.
mod Invariant
pub mod Counts
use vumi.Prelude.{
  ℕ, suc, ◌+◌, ◌≤◌, ◌<◌, ◌≡◌, refl, ap, String, Bool, true, false, ◌||◌, List, [], ◌∷◌, ◌++◌,
  length, ◌=?◌, Result, ok, err, if◌then◌else◌, if-both, Bool-cases, ◌⊎◌, inl, inr, some, arith,
  length-append,
}
use vumi.Connectors.{
  Delivery, Settled, acked, nacked, Consumer, new, start, queue_message, aclose, consume_message,
  leave, Step, starts, queues, takes, settles, fails, stops, leaves, closes, Reachable, fresh, step,
  Call, Calls, returns, raises, cancelled, refuse,
}
use Counts.{times, times_settled}
use Invariant.{IsValid, Reachable-IsValid}

handled_none : (ds : List Delivery) → length ds ≤ 0 → ds ≡ []
handled_none [] h = refl
handled_none (d ∷ ds) h = ground arith

-- In every order of the steps, the failures of the callback, of acknowledgements and refusals and
-- the cancellations among them: when a consumer is closed, no task handles a delivery, and each
-- delivery that was put into the channel has been settled once, by an acknowledgement or a refusal,
-- or an exception has ended the task that was at it, or it is still in the channel. If no exception
-- has ended a task, the closing has been asked for, nothing is left in the channel, and each
-- delivery has been settled once.
pub closed_settled :
    {R : Type 0} (handle : String → Result R) (n : ℕ) (c : Consumer)
    → Reachable handle n c
    → c.closed ≡ true
    → (c.handling ≡ [])
      × ((t : ℕ)
          → times t c.sent ≡ times t c.channel + (times_settled t c.settled + times t c.lost))
      × ((c.failed ≡ true)
          ⊎ ((c.closing ≡ true)
              × (c.channel ≡ [])
              × ((t : ℕ) → times_settled t c.settled ≡ times t c.sent)))
closed_settled handle n c r closed =
    let h = Reachable-IsValid handle n r in
    let none_active = (h.done closed).0 in
    let idle : c.handling ≡ [] = handled_none c.handling (omega (arith, h.busy, none_active)) in
    let placed : (t : ℕ)
        → times t c.sent ≡ times t c.channel + (times_settled t c.settled + times t c.lost) =
      λ t. omega (arith, h.once t, ap (times t) idle) in
    (
      idle,
      placed,
      elim (Bool-cases c.failed) [
        | inl f ↦ inl f
        | inr f ↦
            let (closing, empty) = (h.done closed).1 f in
            inr (
              closing,
              empty,
              λ t. omega (arith, placed t, ap (times t) empty, ap (times t) (h.kept f)),
            )
      ],
    )

-- Before that, a delivery is settled at most as often as it was put into the channel.
pub settled_once :
    {R : Type 0} (handle : String → Result R) (n : ℕ) (c : Consumer) (t : ℕ)
    → Reachable handle n c
    → times_settled t c.settled ≤ times t c.sent
settled_once handle n c t r = omega (arith, (Reachable-IsValid handle n r).once t)
