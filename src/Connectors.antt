-- ===== src/Connectors.antt =====
-- `Consumer` of src/vumi2/connectors.py: the deliveries of a queue, the tasks that handle them,
-- and the closing. A step is what one task does between two waits; `sent` and `settled` record, in
-- order, the deliveries put into the channel and those acknowledged or refused, and `lost` those
-- that a task was at when an exception ended it.
pub mod Base
pub mod Pairing
pub mod Delivering
pub mod Closing
pub mod Collection
pub mod Ordering
use vumi.Prelude.{
  ℕ, suc, ◌+◌, ◌-◌, ◌<◌, ◌≡◌, String, Bool, true, false, ◌||◌, ◌⊎◌, Option, none, some, List, [],
  ◌∷◌, ◌++◌, length, ◌=?◌, Result, ok, err, ◌>>=◌, if◌then◌else◌,
}

-- What a delivery brings: its tag and its body.
pub record Delivery : Type 0 where
  pub delivery_tag : ℕ
  pub body : String

-- `basic_client_ack`, or `basic_client_nack` without a requeue.
pub data Settled : Type 0 where
  acked nacked : (delivery_tag : ℕ) → Settled

pub record Consumer : Type 0 where
  pub concurrency : ℕ
  pub active_consumers : ℕ
  pub closing : Bool
  pub closed : Bool
  -- Whether the receive channel is open of which `start` makes a clone for each task.
  pub is_receiving : Bool
  -- The memory channel.
  pub channel : List Delivery
  -- What the tasks of `consume_messages` are at.
  pub handling : List Delivery
  pub sent : List Delivery
  pub settled : List Settled
  pub lost : List Delivery
  -- Whether an exception, or a cancellation, has ended a task.
  pub failed : Bool

unfoldable pub new : (concurrency : ℕ) → Consumer
new concurrency = record {
  concurrency = concurrency;
  active_consumers = 0;
  closing = false;
  closed = false;
  is_receiving = true;
  channel = [];
  handling = [];
  sent = [];
  settled = [];
  lost = [];
  failed = false;
}

-- `start`: one task of `consume_messages` for each unit of the concurrency.
unfoldable pub start : Consumer → Consumer
start c =
    if c.active_consumers =? c.concurrency || c.closing
    then c
    else record c { active_consumers = c.active_consumers + c.concurrency; is_receiving = false }

-- `queue_message`, where the channel has room.
unfoldable pub queue_message : Delivery → Consumer → Consumer
queue_message d c =
    if c.closing then c else record c { channel = c.channel ++ (d ∷ []); sent = c.sent ++ (d ∷ []) }

-- The first part of `aclose`.
unfoldable pub aclose : Consumer → Consumer
aclose c = record c { closing = true }

-- How a call of the AMQP client ends. `Cancelled` is no `Exception`.
pub data Call : Type 0 where
  returns raises cancelled : Call

-- What happens while a delivery is handled: whether the callback is cancelled, and how the calls of
-- `basic_client_ack` and `basic_client_nack` end.
pub record Calls : Type 0 where
  pub is_cancelled : Bool
  pub ack : Call
  pub nack : Call

-- The `except` clause.
abbrev pub refuse : Calls → Delivery → Option Settled
refuse calls d = elim calls.nack [
  | returns ↦ some (nacked d.delivery_tag)
  | raises ↦ none
  | cancelled ↦ none
]

-- The outcome of `consume_message`, or `none` if it ends by an exception: `handle` is
-- `deserialise` of the JSON body, then the callback.
unfoldable pub consume_message :
    {R : Type 0} → (String → Result R) → Calls → Delivery → Option Settled
consume_message handle calls d = if calls.is_cancelled then none else elim (handle d.body) [
  | err _ ↦ refuse calls d
  | ok _ ↦ elim calls.ack [
    | returns ↦ some (acked d.delivery_tag)
    | raises ↦ refuse calls d
    | cancelled ↦ none
  ]
]

-- The `finally` of `consume_messages`.
unfoldable pub leave : Consumer → Consumer
leave c =
    let n = c.active_consumers - 1 in
    record c { active_consumers = n; closed = if n =? 0 then true else c.closed }

module _ {R : Type 0} (handle : String → Result R) where
  -- The steps of the tasks. A task that handles nothing takes the next delivery, leaves once the
  -- channel is closed and empty, or is cancelled. `start` is called once. A delivery is queued only
  -- while there is a receiver, since the channel raises without one.
  pub data Step : Consumer → Consumer → Type 0 where
    starts : {c : Consumer} → c.is_receiving ≡ true → Step c (start c)
    queues :
        {c : Consumer} (d : Delivery)
        → length c.channel < c.concurrency
        → (c.is_receiving ≡ true) ⊎ (0 < c.active_consumers)
        → Step c (queue_message d c)
    takes :
        {c : Consumer} (d : Delivery) (ds : List Delivery)
        → c.channel ≡ d ∷ ds
        → length c.handling < c.active_consumers
        → Step c (record c { channel = ds; handling = d ∷ c.handling })
    settles :
        {c : Consumer} (before : List Delivery) (d : Delivery) (after : List Delivery)
        (calls : Calls) (s : Settled)
        → c.handling ≡ before ++ (d ∷ after)
        → consume_message handle calls d ≡ some s
        → Step c (record c { handling = before ++ after; settled = c.settled ++ (s ∷ []) })
    fails :
        {c : Consumer} (before : List Delivery) (d : Delivery) (after : List Delivery)
        (calls : Calls)
        → c.handling ≡ before ++ (d ∷ after)
        → consume_message handle calls d ≡ none
        → Step c (
            leave
              (record c { handling = before ++ after; lost = c.lost ++ (d ∷ []); failed = true }))
    stops :
        {c : Consumer}
        → length c.handling < c.active_consumers
        → Step c (leave (record c { failed = true }))
    leaves :
        {c : Consumer}
        → c.closing ≡ true
        → c.channel ≡ []
        → length c.handling < c.active_consumers
        → Step c (leave c)
    closes : {c : Consumer} → Step c (aclose c)

  pub data Reachable (concurrency : ℕ) : Consumer → Type 0 where
    fresh : Reachable concurrency (new concurrency)
    step : {c c' : Consumer} → Reachable concurrency c → Step c c' → Reachable concurrency c'
