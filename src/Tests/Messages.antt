-- ===== src/Tests/Messages.antt =====
-- The theorem on the timestamps of src/vumi2/messages.py at a concrete input, and runs of `reply`
-- and of the middlewares of src/vumi2/workers.py.
use vumi.Prelude.{
  ◌≡◌, refl, String, true, false, some, List, [], ◌∷◌, ok, ◌<>◌, ℕ, Result, err, value_error,
  if◌then◌else◌, ◌==◌, string_eq, arith,
}
use vumi.Messages.Timestamps.{
  with_fraction, ends_with, deserialise_vumi_timestamp, serialise_vumi_timestamp,
  deserialise_vumi_timestamp-serialise_vumi_timestamp,
}
use vumi.Messages.{Message, sms, new, new_message, reply, transport_name}
use vumi.Workers.{Middleware, middleware_handler}

abbrev asked : Message
asked = record (new_message 7 "m1" "+1" "+2" "smpp" sms) {
  content = some "question";
  group = some "g";
}

abbrev answered : Message
answered = record (new_message 9 "m2" "+2" "+1" "other" sms) {
  content = some "answer";
  session_event = new;
  group = some "g";
  in_reply_to = some "m1";
}

reply_run : reply asked 9 "m2" (some "answer") new (transport_name "other" ∷ []) ≡ ok answered
unfolding reply new_message
reply_run = refl

abbrev marks : String → List String → Middleware String
marks mark connectors = record {
  config = record {
    enable_for_connectors = connectors;
    inbound_enabled = true;
    outbound_enabled = false;
    event_enabled = false;
  };
  handle = λ msg name. ok (msg <> mark);
}

abbrev marked : List (Middleware String)
marked = marks "a" ("x" ∷ []) ∷ marks "b" ("y" ∷ []) ∷ marks "c" ("y" ∷ "x" ∷ []) ∷ []

middleware_handler_run :
    middleware_handler (λ c. c.inbound_enabled) "x" marked (λ msg. ok msg) "m" ≡ ok "mac"
unfolding middleware_handler
middleware_handler_run = refl

-- The format, for one time.
abbrev strftime : ℕ → String
strftime value = "2024-02-29 12:30:00.000000"

abbrev strptime : String → Result ℕ
strptime text = if text == "2024-02-29 12:30:00.000000" then ok 5 else err value_error

deserialise_vumi_timestamp-serialise_vumi_timestamp_example :
    (deserialise_vumi_timestamp strptime strftime (serialise_vumi_timestamp strptime strftime 5)
      ≡ ok 5)
    × (deserialise_vumi_timestamp strptime strftime
          (serialise_vumi_timestamp strptime strftime 5 <> "Z")
        ≡ ok 5)
unfolding ends_with
deserialise_vumi_timestamp-serialise_vumi_timestamp_example =
    deserialise_vumi_timestamp-serialise_vumi_timestamp strptime strftime 5 "2024-02-29 12:30:00"
      "000000" refl (omega arith) refl refl

-- Without a fraction, one is added.
timestamp_run : with_fraction strptime strftime "2024-02-29 12:30:00" ≡ "2024-02-29 12:30:00.0"
unfolding with_fraction
timestamp_run = refl
