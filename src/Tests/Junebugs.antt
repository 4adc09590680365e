-- ===== src/Tests/Junebugs.antt =====
-- The theorems on src/vumi2/applications/junebug_message_api at concrete inputs.
use vumi.Prelude.{
  true, ◌≡◌, refl, none, some, [], ◌∷◌, ok, err, inl, inr, arith, ◌==◌, if◌then◌else◌, string_eq,
  type_error, value_error,
}
use vumi.Prelude.Dict
use vumi.Api.{in_time, responded, cancelled}
use vumi.Messages.{Message, Event, new_message, sms, nack}
use vumi.Messages.Value.{Fields, field, end, obj, str, bool, pop}
use vumi.Junebug
use vumi.Junebug.{EventHttpInfo, MemoryJunebugStateCache}
use vumi.Junebug.Outbound.{JunebugOutboundMessage, junebug_inbound_from_msg, shared_vumi_fields}
use vumi.Junebug.Worker.{
  JunebugMessageApiConfig, JunebugMessageApi, Environment, response, handle_event,
  handle_inbound_message, http_send_message, decode_request, build_outbound, url_of,
}
use vumi.Junebug.Worker.Answers.{Answers, http_send_message-Answers}
use vumi.Junebug.Worker.Replies.{RepliesTo, http_send_message_continue_session}
use vumi.Junebug.Worker.Exchange.{http_send_message-RepliesTo, handle_event_after_send}

abbrev config : JunebugMessageApiConfig
config = record {
  connector_name = "jb";
  mo_message_url = "http://app/mo";
  mo_message_url_auth_token = none;
  default_event_url = some "http://app/events";
  default_event_auth_token = some "t";
  base_url_path = "/channels/c/";
  transport_type = sms;
  default_from_addr = some "+9";
  allow_expired_replies = true;
}

abbrev cache : MemoryJunebugStateCache
cache = record {
  store_event_info = true;
  event_http_info = record { items = []; timeout = 4 };
  inbound = record { items = []; timeout = 4 };
}

abbrev idle : JunebugMessageApi
idle = record { state_cache = cache; published = []; posts = [] }

abbrev hello : Message
hello = record (new_message 1 "m1" "+1" "+2" "ussd" sms) { content = some "hello" }

abbrev replying : Fields
replying = field "content" (str "hi") (
    field "reply_to" (str "m1")
      (field "to" (str "+2") (field "event_url" (str "http://app/e") end)))

-- What `deserialise` makes of `replying`.
abbrev jom : JunebugOutboundMessage
jom = record {
  content = "hi";
  to = some "+2";
  from_addr = some "+9";
  group = none;
  reply_to = some "m1";
  event_url = some "http://app/e";
  event_auth_token = none;
  priority = 1;
  channel_data = end;
}

abbrev session_going : Fields
session_going = field "channel_data" (obj (field "continue_session" (bool true) end)) replying

-- A decoder for two texts.
abbrev env : Environment
env = record {
  conversions = record { show = λ v. "[]"; to_int = λ v. ok 1; first_of = λ keys. "key" };
  loads = λ text.
      if text == "replying"
      then inr (obj replying)
      else if text == "going"
      then inr (obj session_going)
      else inl "Expecting value";
  show_time = λ t. "2024-01-01 00:00:00.000000";
  keep = λ v. err value_error;
}

url_of_run : url_of config "/messages" ≡ "/channels/c/messages"
unfolding url_of
url_of_run = refl

http_send_message-Answers_example :
    Answers config env in_time idle (http_send_message config env in_time 2 2 "m2" "replying" idle)
http_send_message-Answers_example =
    http_send_message-Answers config env 2 2 in_time "m2" "replying" idle tt

http_send_message-RepliesTo_example :
    (r : Message) × ((http_send_message config env in_time 3 3 "m2" "replying"
        (handle_inbound_message config env (responded 200) 1 2 hello idle).1).0
      ≡ ok (
          some (
            response "message submitted"
              (junebug_inbound_from_msg env.show_time r config.connector_name)
              201)))
    × ((http_send_message config env in_time 3 3 "m2" "replying"
          (handle_inbound_message config env (responded 200) 1 2 hello idle).1).1.published
        ≡ r ∷ [])
    × RepliesTo hello jom r
unfolding decode_request new_message shared_vumi_fields pop
http_send_message-RepliesTo_example =
    http_send_message-RepliesTo config env (responded 200) 1 2 3 3 "m2" "replying" hello jom idle
      (omega arith) (omega arith) (record { distinct = tt; ordered = tt; past = tt }) refl refl refl
      refl refl

http_send_message_continue_session_example :
    ((http_send_message config env in_time 3 3 "m2" "going"
        (handle_inbound_message config env (responded 200) 1 2 hello idle).1).0
      ≡ err type_error)
    × ((http_send_message config env in_time 3 3 "m2" "going"
          (handle_inbound_message config env (responded 200) 1 2 hello idle).1).1.published
        ≡ [])
unfolding decode_request shared_vumi_fields pop Junebug.fetch_inbound handle_inbound_message
    new_message Dict.lookup Dict.insert
http_send_message_continue_session_example =
    http_send_message_continue_session config env 3 3 "m2" "going" "m1"
      (record jom { channel_data = field "continue_session" (bool true) end })
      (handle_inbound_message config env (responded 200) 1 2 hello idle).1 refl refl refl hello
      (bool true) refl refl

abbrev refused : Event
refused = record {
  user_message_id = "m2";
  event_type = nack;
  message_version = "20110921";
  message_type = "event";
  timestamp = 5000000;
  routing_metadata = end;
  helper_metadata = end;
  transport_metadata = none;
  event_id = "e1";
  sent_message_id = none;
  nack_reason = some "no";
  delivery_status = none;
}

-- The message of the request, which is sent to the address since no message is found.
abbrev sent : Message
sent = record (new_message 3 "m2" "+2" "+9" "jb" sms) { content = some "hi" }

handle_event_after_send_example :
    (handle_event config env cancelled 5 refused
      (http_send_message config env in_time 3 4 "m2" "replying" idle).1).1.posts
    ≡ record {
      url = "http://app/e";
      json = obj (
          field "message_id" (str "m2") (
            field "channel_id" (str "jb") (
              field "timestamp" (str "2024-01-01 00:00:00.000000") (
                field "event_details"
                  (obj (field "reason" (str "no") end))
                  (field "event_type" (str "rejected") end)))));
      headers = [];
    }
      ∷ []
unfolding decode_request build_outbound new_message Dict.lookup pop
handle_event_after_send_example =
    handle_event_after_send config env cancelled 3 4 5 "m2" "replying" "http://app/e" jom sent
      refused idle (omega arith) (omega arith) (record { distinct = tt; ordered = tt; past = tt })
      refl refl refl refl
