-- ===== src/Connectors/Closing/Invariant.antt =====
-- What holds in every state of a `Consumer` (src/vumi2/connectors.py).
use vumi.Prelude.{
  ℕ, ◌+◌, ◌≤◌, ◌<◌, ◌≡◌, refl, ap, String, Bool, true, false, ◌||◌, List, [], ◌∷◌, ◌++◌, length,
  ◌=?◌, Result, if◌then◌else◌, if-both, ◌⊎◌, inl, inr, arith, length-append,
}
use vumi.Connectors.{
  Delivery, Settled, Consumer, new, start, queue_message, aclose, leave, Step, starts, queues,
  takes, settles, fails, stops, leaves, closes, Reachable, fresh, step,
}
use vumi.Connectors.Closing.Counts.{
  times, tag_of, times_settled, times-append, times_settled-append, tag_of-consume_message,
}

-- No task handles two deliveries, each delivery is somewhere, and once closed no task is left, and
-- nothing in the channel if no task has failed.
pub record IsValid (c : Consumer) : Type 0 where
  pub busy : length c.handling ≤ c.active_consumers
  pub once :
      (t : ℕ)
      → times t c.sent
        ≡ times t c.channel + (times t c.handling + (times_settled t c.settled + times t c.lost))
  pub done :
      c.closed ≡ true
      → (c.active_consumers ≡ 0) × ((c.failed ≡ false) → (c.closing ≡ true) × (c.channel ≡ []))
  pub idle : c.is_receiving ≡ true → (c.active_consumers ≡ 0) × (c.closed ≡ false)
  pub kept : c.failed ≡ false → c.lost ≡ []

new-IsValid : (n : ℕ) → IsValid (new n)
unfolding new
new-IsValid n = record {
  busy = omega arith;
  once = λ t. omega arith;
  done = λ p. cc;
  idle = λ p. (refl, refl);
  kept = λ p. refl;
}

start-IsValid : (c : Consumer) → c.is_receiving ≡ true → IsValid c → IsValid (start c)
unfolding start
start-IsValid c unused h =
    if-both IsValid (c.active_consumers =? c.concurrency || c.closing) h (record {
      busy = omega (arith, h.busy);
      once = h.once;
      done = λ p. let e = (h.idle unused).1 in absurd (cc);
      idle = λ p. cc;
      kept = h.kept;
    })

queue_message-IsValid : (d : Delivery) (c : Consumer) → IsValid c → IsValid (queue_message d c)
unfolding queue_message
queue_message-IsValid d c h = go c.closing refl
  where
    go :
        (b : Bool)
        → c.closing ≡ b
        → IsValid (
            if b
            then c
            else record c { channel = c.channel ++ (d ∷ []); sent = c.sent ++ (d ∷ []) })
    go true e = h
    go false e = record {
      busy = h.busy;
      once = λ t.
          omega
            (arith, h.once t, times-append t c.sent (d ∷ []), times-append t c.channel (d ∷ []));
      done = λ p. ((h.done p).0, λ q. let k = ((h.done p).1 q).0 in absurd (cc));
      idle = h.idle;
      kept = h.kept;
    }

takes-IsValid :
    (c : Consumer) (d : Delivery) (ds : List Delivery)
    → c.channel ≡ d ∷ ds
    → length c.handling < c.active_consumers
    → IsValid c
    → IsValid (record c { channel = ds; handling = d ∷ c.handling })
takes-IsValid c d ds first idle h = record {
  busy = omega (arith, idle);
  once = λ t. ground (arith, h.once t, ap (times t) first);
  done = λ p. absurd (omega (arith, idle, (h.done p).0));
  idle = h.idle;
  kept = h.kept;
}

settles-IsValid :
    (c : Consumer) (before : List Delivery) (d : Delivery) (after : List Delivery) (s : Settled)
    → c.handling ≡ before ++ (d ∷ after)
    → tag_of s ≡ d.delivery_tag
    → IsValid c
    → IsValid (record c { handling = before ++ after; settled = c.settled ++ (s ∷ []) })
settles-IsValid c before d after s at tag h = record {
  busy = omega (
    arith,
    h.busy,
    ap (length {A = Delivery}) at,
    length-append before (d ∷ after),
    length-append before after,
  );
  once = λ t. ground (
    arith,
    h.once t,
    ap (times t) at,
    times-append t before (d ∷ after),
    times-append t before after,
    times_settled-append t c.settled (s ∷ []),
    tag,
  );
  done = h.done;
  idle = h.idle;
  kept = h.kept;
}

fails-IsValid :
    (c : Consumer) (before : List Delivery) (d : Delivery) (after : List Delivery)
    → c.handling ≡ before ++ (d ∷ after)
    → IsValid c
    → IsValid (record c { handling = before ++ after; lost = c.lost ++ (d ∷ []); failed = true })
fails-IsValid c before d after at h = record {
  busy = omega (
    arith,
    h.busy,
    ap (length {A = Delivery}) at,
    length-append before (d ∷ after),
    length-append before after,
  );
  once = λ t. ground (
    arith,
    h.once t,
    ap (times t) at,
    times-append t before (d ∷ after),
    times-append t before after,
    times-append t c.lost (d ∷ []),
  );
  done = λ p. ((h.done p).0, λ q. absurd (cc));
  idle = h.idle;
  kept = λ q. absurd (cc);
}

stops-IsValid : (c : Consumer) → IsValid c → IsValid (record c { failed = true })
stops-IsValid c h = record {
  busy = h.busy;
  once = h.once;
  done = λ p. ((h.done p).0, λ q. absurd (cc));
  idle = h.idle;
  kept = λ q. absurd (cc);
}

leave-IsValid :
    (c : Consumer)
    → (c.failed ≡ true) ⊎ ((c.closing ≡ true) × (c.channel ≡ []))
    → length c.handling < c.active_consumers
    → IsValid c
    → IsValid (leave c)
unfolding leave
leave-IsValid c why idle h = record {
  busy = omega (arith, idle);
  once = h.once;
  done = λ p. (ground (arith, h.done), λ q. at_end q why);
  idle = λ p. absurd (omega (arith, idle, (h.idle p).0));
  kept = h.kept;
}
  where
    at_end :
        c.failed ≡ false
        → (c.failed ≡ true) ⊎ ((c.closing ≡ true) × (c.channel ≡ []))
        → (c.closing ≡ true) × (c.channel ≡ [])
    at_end q (inl e) = absurd (cc)
    at_end q (inr e) = e

aclose-IsValid : (c : Consumer) → IsValid c → IsValid (aclose c)
unfolding aclose
aclose-IsValid c h = record {
  busy = h.busy;
  once = h.once;
  done = λ p. ((h.done p).0, λ q. (refl, ((h.done p).1 q).1));
  idle = h.idle;
  kept = h.kept;
}

-- With the delivery of one task gone, one task has none.
one_less :
    (c : Consumer) (before : List Delivery) (d : Delivery) (after : List Delivery)
    → c.handling ≡ before ++ (d ∷ after)
    → length c.handling ≤ c.active_consumers
    → length (before ++ after) < c.active_consumers
one_less c before d after at busy = omega (
  arith,
  busy,
  ap (length {A = Delivery}) at,
  length-append before (d ∷ after),
  length-append before after,
)

Step-IsValid :
    {R : Type 0} (handle : String → Result R) {c c' : Consumer}
    → Step handle c c'
    → IsValid c
    → IsValid c'
Step-IsValid handle {c} (starts unused) h = start-IsValid c unused h
Step-IsValid handle {c} (queues d room receiver) h = queue_message-IsValid d c h
Step-IsValid handle {c} (takes d ds first idle) h = takes-IsValid c d ds first idle h
Step-IsValid handle {c} (settles before d after calls s at out) h =
    settles-IsValid c before d after s at (tag_of-consume_message handle calls d s out) h
Step-IsValid handle {c} (fails before d after calls at out) h =
    leave-IsValid _ (inl refl) (one_less c before d after at h.busy)
      (fails-IsValid c before d after at h)
Step-IsValid handle {c} (stops idle) h = leave-IsValid _ (inl refl) idle (stops-IsValid c h)
Step-IsValid handle {c} (leaves closing empty idle) h =
    leave-IsValid c (inr (closing, empty)) idle h
Step-IsValid handle {c} closes h = aclose-IsValid c h

pub Reachable-IsValid :
    {R : Type 0} (handle : String → Result R) (n : ℕ) {c : Consumer}
    → Reachable handle n c
    → IsValid c
Reachable-IsValid handle n fresh = new-IsValid n
Reachable-IsValid handle n (step r s) = Step-IsValid handle s (Reachable-IsValid handle n r)
