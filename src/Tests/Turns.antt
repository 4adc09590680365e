-- ===== src/Tests/Turns.antt =====
-- The theorems on src/vumi2/applications/turn_channels_api at concrete inputs.
use vumi.Prelude.{
  ℕ, zero, suc, ◌<◌, ◌==◌, ◌<>◌, String, false, ◌≡◌, refl, none, some, [], ◌∷◌, ok, err, inl, inr,
  arith, replicate, if◌then◌else◌, unbound_local_error, string_eq, http_error_response,
}
use vumi.Prelude.Dict
use vumi.Api.{is_api_error}
use vumi.Messages.{Message, Event, new_message, sms, ack, delivery_report, delivered, new_event}
use vumi.Messages.Value.{Fields, field, end, obj, str}
use vumi.Cache.MessageCache
use vumi.Smpp.Cache.{SmppCache, get_smpp_message_id}
use vumi.Smpp.Reports
use vumi.Turn.Outbound.{body_of, deserialise}
use vumi.Api.{responded, in_time}
use vumi.Turn.Worker.{
  TurnChannelsApiConfig, TurnChannelsApi, Network, inbound_post, handle_inbound_message,
  handle_event, Environment, TurnRequest, http_send_message, turn_url, decode_request,
}
use vumi.Turn.Worker.Retry.{
  Fails, Repeats, extend, stored, labels, delays, handle_inbound_message_delivers,
  handle_inbound_message_exhausted, handle_inbound_message-Repeats,
}
use vumi.Turn.Worker.Events.{handle_event_of_report}
use vumi.Turn.Worker.Requests.{http_send_message_with_reply_to}

abbrev config : TurnChannelsApiConfig
config = record {
  connector_name = "turn";
  vumi_api_path = "/v";
  turn_api_url = "http://turn/";
  auth_token = "t";
  transport_type = sms;
  default_from_addr = "+9";
  turn_hmac_secret = "secret";
  max_retries = 2;
  retry_delay_exponent = 2;
  retry_delay_base = 2;
}

abbrev hello : Message
hello = record (new_message 1 "m1" "+1" "+2" "smpp" sms) { content = some "hello" }

abbrev idle : TurnChannelsApi
idle = record {
  message_cache = MessageCache.new 4;
  published = [];
  posts = [];
  sleeps = [];
  retries = [];
}

turn_url_run : turn_url config "/messages" ≡ "http://turn/messages"
unfolding turn_url
turn_url_run = refl

-- Two failures, then a success.
abbrev flaky : Network
flaky = record {
  reply = λ n. elim n [ zero ↦ responded 500 | suc zero ↦ responded 429 | _ ↦ responded 200 ];
  random = λ n. 7;
  sleep_cancelled = λ n. false;
}

flaky-Fails : (i : ℕ) → i < 2 → Fails flaky i
flaky-Fails zero h = record { error = http_error_response 500; failed = refl; waited = refl }
flaky-Fails (suc zero) h = record { error = http_error_response 429; failed = refl; waited = refl }
flaky-Fails (suc (suc i)) h = absurd (omega arith)

handle_inbound_message_delivers_example : handle_inbound_message config flaky 1 1 hello idle ≡ (
  ok tt,
  extend
      (stored 1 1 hello idle)
      (replicate 3 (inbound_post config hello))
      (labels 2 0)
      (delays config flaky 2 0),
)
handle_inbound_message_delivers_example =
    handle_inbound_message_delivers config flaky 1 1 hello idle (omega arith) 2 (omega arith)
      flaky-Fails refl

-- The first delay is drawn below 1, the second below 4.
handle_inbound_message_run :
    (handle_inbound_message config flaky 1 1 hello idle).1.sleeps ≡ 0 ∷ 3 ∷ []
unfolding handle_inbound_message
handle_inbound_message_run = refl

abbrev down : Network
down = record { reply = λ n. responded 500; random = λ n. 7; sleep_cancelled = λ n. false }

handle_inbound_message_exhausted_example : handle_inbound_message config down 1 1 hello idle ≡ (
  err (http_error_response 500),
  extend
      (stored 1 1 hello idle)
      (replicate 3 (inbound_post config hello))
      (labels 3 0)
      (delays config down 2 0),
)
handle_inbound_message_exhausted_example =
    handle_inbound_message_exhausted config down 1 1 hello idle (omega arith)
      (http_error_response 500)
      (λ i h. record { error = http_error_response 500; failed = refl; waited = refl }) refl

handle_inbound_message-Repeats_example :
    Repeats 3
      (inbound_post config hello)
      (stored 1 1 hello idle)
      (handle_inbound_message config down 1 1 hello idle).1
handle_inbound_message-Repeats_example = handle_inbound_message-Repeats config down 1 1 hello idle

abbrev acked : Event
acked = record {
  user_message_id = "m1";
  event_type = ack;
  message_version = "20110921";
  message_type = "event";
  timestamp = 5000000;
  routing_metadata = end;
  helper_metadata = end;
  transport_metadata = none;
  event_id = "e1";
  sent_message_id = some "m1";
  nack_reason = none;
  delivery_status = none;
}

abbrev reports : Reports.Config
reports = record { regex = λ text. none; status_mapping = ("DELIVRD", "delivered") ∷ [] }

abbrev sent_ids : SmppCache
sent_ids = record {
  multipart = [];
  smpp_msg_id = record { items = ("s1", (1, "m1")) ∷ []; timeout = 4 };
}

abbrev reported : Event
reported = record acked {
  event_type = delivery_report;
  timestamp = 2;
  transport_metadata = some (field "smpp_delivery_status" (str "DELIVRD") end);
  sent_message_id = none;
  delivery_status = some delivered;
}

handle_event_of_report_example :
    ((handle_event config (responded 200) 5 reported idle).0 ≡ ok tt)
    × ((handle_event config (responded 200) 5 reported idle).1.posts ≡ [])
unfolding Reports.create_event Reports.create_known Reports.status_of new_event get_smpp_message_id
handle_event_of_report_example =
    handle_event_of_report config (responded 200) reports 2 5 "e1" "s1" "DELIVRD" sent_ids reported
      idle refl

abbrev asking : Fields
asking = field "to" (str "+2") (
    field "context" (obj end)
      (field "turn" (obj (field "text" (obj (field "body" (str "hi") end)) end)) end))

abbrev replying : Fields
replying = field "reply_to" (str "m1") asking

abbrev lost : Fields
lost = field "turn" (str "text") end

-- A decoder for three texts.
abbrev env : Environment
env = record {
  loads = λ text.
      if text == "asking"
      then inr (obj asking)
      else if text == "replying"
      then inr (obj replying)
      else if text == "lost"
      then inr (obj lost)
      else inl "Expecting value";
  sign = λ key text. text <> key;
  show = λ v. "[]";
}

abbrev signed : String → TurnRequest
signed text = record { body = text; signature = some (text <> "secret"); limit = in_time }

http_send_message_with_reply_to_example :
    (http_send_message config env 3 3 "m2" (signed "replying") idle
      ≡ (err unbound_local_error, idle))
    × (is_api_error unbound_local_error ≡ false)
unfolding decode_request deserialise body_of
http_send_message_with_reply_to_example =
    http_send_message_with_reply_to config env 3 3 "m2" (signed "replying") replying idle refl refl
      refl refl

-- A message from the address of the request is in the cache.
abbrev busy : TurnChannelsApi
busy = stored 1 1 (record hello { from_addr = "+2"; to_addr = "+1" }) idle
