-- ===== src/Tests/Routers.antt =====
-- The theorems on src/vumi2/routers.py at concrete inputs.
use vumi.Prelude.{
  ◌≡◌, refl, String, Bool, Option, none, some, [], ◌∷◌, Result, ok, ◌==◌, string_eq, arith,
}
use vumi.Messages.{Message, Event, new_message, sms, ack}
use vumi.Messages.Value.{end}
use vumi.Cache.TimeoutDict.Expiry.{IsValid}
use vumi.Cache.MessageCache.{MemoryMessageCache}
use vumi.Router.{
  Config, inbound, event, Router, setup, app_name, handle_inbound_message, handle_event,
  handle_outbound_message,
}
use vumi.Router.Routing.{
  Chosen, to_app, routed, with_cache, handle_inbound_message_lem, handle_event_after_outbound,
}

-- A pattern matches itself alone.
abbrev compile : String → Result (String → Bool)
compile pattern = ok (λ addr. addr == pattern)

abbrev config : Config
config = record {
  transport_names = "smpp" ∷ [];
  to_address_mappings =
      record { name = "app1"; pattern = "+1" } ∷ record { name = "app2"; pattern = "+2" } ∷ [];
  default_app = some "app3";
}

abbrev cache : MemoryMessageCache
cache = record {
  outbounds = record { items = []; timeout = 100 };
  inbounds = record { items = []; timeout = 100 };
}

abbrev router : Router
router = record {
  config = config;
  worker = record {
    receive_inbound_connectors = "smpp" ∷ [];
    receive_outbound_connectors = "app1" ∷ "app2" ∷ "app3" ∷ [];
  };
  mappings = ("app1", λ addr. addr == "+1") ∷ ("app2", λ addr. addr == "+2") ∷ [];
  message_cache = cache;
  published = [];
}

ready : setup compile config cache ≡ ok router
unfolding setup
ready = refl

abbrev question : Message
question = new_message 1 "m1" "+2" "+9" "smpp" sms

handle_inbound_message_lem_example :
    (app : Option String) × Chosen compile config cache router ready config.to_address_mappings "+2"
      app
    × (handle_inbound_message question router
        ≡ (ok tt, to_app compile config cache router ready app (λ name. inbound name question)))
unfolding new_message
handle_inbound_message_lem_example =
    handle_inbound_message_lem compile config cache router ready question

handle_inbound_message_run :
    handle_inbound_message question router
    ≡ (ok tt, record router { published = inbound "app2" question ∷ [] })
unfolding handle_inbound_message new_message
handle_inbound_message_run = refl

abbrev sent : Message
sent = new_message 2 "m2" "+9" "+2" "smpp" sms

abbrev acked : Event
acked = record {
  user_message_id = "m2";
  event_type = ack;
  message_version = "20110921";
  message_type = "event";
  timestamp = 9;
  routing_metadata = end;
  helper_metadata = end;
  transport_metadata = none;
  event_id = "e1";
  sent_message_id = some "m2";
  nack_reason = none;
  delivery_status = none;
}

empty-IsValid : IsValid 3 cache.outbounds
empty-IsValid = record { distinct = tt; ordered = tt; past = tt }

abbrev after_sent : Router
after_sent =
    (handle_outbound_message 3 4 sent (with_cache compile config cache router ready cache [])).1

handle_event_after_outbound_example :
    ((handle_event 9 acked after_sent).0 ≡ ok tt)
    × ((handle_event 9 acked after_sent).1.published
        ≡ (routed (app_name router sent.from_addr) (λ app. event app acked) after_sent).published)
unfolding new_message
handle_event_after_outbound_example =
    handle_event_after_outbound compile config cache router ready 3 4 9 sent acked cache []
      (omega arith) (omega arith) empty-IsValid refl refl
