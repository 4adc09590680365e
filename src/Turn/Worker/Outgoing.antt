-- ===== src/Turn/Worker/Outgoing.antt =====
-- The message that `TurnChannelsApi.http_send_message`
-- (src/vumi2/applications/turn_channels_api/turn_channels_api.py) makes of a request.
use vumi.Prelude.{
  ℕ, String, Bool, false, ◌≡◌, Option, none, some, List, ok, string_eq, if◌then◌else◌, map, filter,
  not,
}
use vumi.Messages.{Message, resume, close}
use vumi.Messages.Value.{Fields, Value, str, end, get, bool, get_or}
use vumi.Cache.TimeoutDict.{TimeoutDict, is_expired}
use vumi.Cache.TimeoutDict
use vumi.Turn.Outbound.{TurnOutboundMessage, body_of}
use vumi.Turn.Worker.{TurnChannelsApiConfig}

-- A request that `deserialise` takes: the keys that it looks for, and its text.
pub record Asks (d : Fields) (addr : String) (content : Value) : Type 0 where
  pub context : Value
  pub turn : Value
  pub has_context : get "context" d ≡ some context
  pub has_turn : get "turn" d ≡ some turn
  pub has_to : get "to" d ≡ some (str addr)
  pub has_body : body_of turn ≡ ok content

outbound_of : (default_from : Option String) → Fields → String → Value → TurnOutboundMessage
outbound_of default_from d addr content = record {
  content = content;
  to = str addr;
  from_addr = default_from;
  reply_to = get_or "reply_to" (str "") d;
  priority = 1;
  waiting_for_user_input = get_or "waiting_for_user_input" (bool false) d;
  channel_data = end;
}

-- How a message follows from the one that it answers, if there is one.
abbrev pub Follows : TurnChannelsApiConfig → Option Message → Message → Type 0
Follows config none m =
    (m.from_addr ≡ config.default_from_addr)
    × (m.transport_name ≡ config.connector_name)
    × (m.in_reply_to ≡ none)
Follows config (some inbound) m =
    (m.from_addr ≡ inbound.to_addr)
    × (m.transport_name ≡ inbound.transport_name)
    × (m.in_reply_to ≡ some inbound.message_id)

pub record IsFor (config : TurnChannelsApiConfig) (addr : String) (content : Option String)
    (waiting : Bool) (found : Option Message) (m : Message) : Type 0 where
  pub to_addr : m.to_addr ≡ addr
  pub same_content : m.content ≡ content
  pub session_event : m.session_event ≡ (if waiting then resume else close)
  pub follows : Follows config found m

-- The message found came from the address.
abbrev From : String → Option Message → Type 0
From addr none = Unit {0}
From addr (some inbound) = inbound.from_addr ≡ addr

-- The messages of a cache that have not expired.
abbrev pub fresh_messages : (now : ℕ) → TimeoutDict Message → List Message
fresh_messages now d =
    map (λ (e : String × (ℕ × Message)). e.1.1)
      (filter (λ (e : String × (ℕ × Message)). not (is_expired now d.timeout e.1.0)) d.items)
