-- ===== src/Junebug/Outbound.antt =====
-- src/vumi2/applications/junebug_message_api/messages.py: what is sent for a message and for an
-- event, and `JunebugOutboundMessage`. `cattrs.structure` makes the text of `str` for a field of a
-- text type, and reports the fields that it cannot make, in order, before the keys that it does not
-- know.
use vumi.Prelude.{
  ℕ, String, ◌<>◌, Option, none, some, List, [], ◌∷◌, contains, api_usage_error, invalid_body,
  key_error, attribute_error, Result, ok, err, ◌>>=◌, ◌>>◌, if◌then◌else◌, string_eq,
}
use vumi.Messages.Value.{
  Fields, Value, end, field, obj, str, null, get, put, pop, is_null, text_of, opt_text, opt_str,
}
use vumi.Messages.{
  Message, Event, Session, TransportType, EventType, DeliveryStatus, Kwarg, ack, nack,
  delivery_report, pending, failed, delivered, none_, new, resume, close, new_message, reply,
  session_of,
}

-- The value of a `Session` in `message.serialise()`, unless it is `None`.
abbrev pub session_text : Session → Option String
session_text none_ = none
session_text new = some "new"
session_text resume = some "resume"
session_text close = some "close"

-- `msg["channel_data"]`
unfoldable pub channel_data_of : Message → Fields
unfolding put
channel_data_of message = elim (session_text message.session_event) [
  | none ↦ message.helper_metadata
  | some s ↦ put "session_event" (str s) message.helper_metadata
]

-- `show_time` is `strftime` with the format of vumi.
unfoldable pub junebug_inbound_from_msg :
    (show_time : ℕ → String) → Message → (channel_id : String) → Value
unfolding channel_data_of
junebug_inbound_from_msg show_time message channel_id =
    let tail = field "reply_to" (opt_str message.in_reply_to) (
      field "content" (opt_str message.content)
        (field "channel_data" (obj (channel_data_of message)) end)) in
    let middle = field "message_id" (str message.message_id) (
      field "channel_id" (str channel_id)
        (field "timestamp" (str (show_time message.timestamp)) tail)) in
    obj (
      field "to" (str message.to_addr)
        (field "from" (str message.from_addr) (field "group" (opt_str message.group) middle)))

-- The event type and its details.
unfoldable pub event_type_of : EventType → Option DeliveryStatus → Value
event_type_of ack _ = str "submitted"
event_type_of nack _ = str "rejected"
event_type_of delivery_report (some pending) = str "delivery_pending"
event_type_of delivery_report (some failed) = str "delivery_failed"
event_type_of delivery_report (some delivered) = str "delivery_succeeded"
event_type_of delivery_report none = null

unfoldable pub event_details_of : EventType → Option String → Fields
event_details_of nack nack_reason = field "reason" (opt_str nack_reason) end
event_details_of _ _ = end

unfoldable pub junebug_event_from_ev :
    (show_time : ℕ → String) → Event → (channel_id : String) → Value
unfolding event_type_of event_details_of
junebug_event_from_ev show_time event channel_id =
    let details =
      field "event_details" (obj (event_details_of event.event_type event.nack_reason))
        (field "event_type" (event_type_of event.event_type event.delivery_status) end) in
    obj (
      field "message_id" (str event.user_message_id) (
        field "channel_id" (str channel_id)
          (field "timestamp" (str (show_time event.timestamp)) details)))

pub record JunebugOutboundMessage : Type 0 where
  pub content : String
  pub to : Option String
  pub from_addr : Option String
  pub group : Option String
  pub reply_to : Option String
  pub event_url : Option String
  pub event_auth_token : Option String
  pub priority : ℕ
  pub channel_data : Fields

-- `__attrs_post_init__`
unfoldable pub check_outbound : JunebugOutboundMessage → Result JunebugOutboundMessage
check_outbound jom = elim jom.to [
  | some to ↦ ok jom
  | none ↦ elim jom.reply_to [
    | some id ↦ ok jom
    | none ↦ err (api_usage_error "Either \"to\" or \"reply_to\" must be specified")
  ]
]

-- The keys of the fields; `from_addr` is renamed.
abbrev pub field_names : List String
field_names =
    "content" ∷ "to" ∷ "from" ∷ "group" ∷ "reply_to" ∷ "event_url" ∷ "event_auth_token" ∷ "priority"
    ∷ "channel_data" ∷ []

unfoldable pub extra_fields : Fields → List String
extra_fields end = []
extra_fields (field k v d) =
    let rest = extra_fields d in if contains field_names k then rest else k ∷ rest

-- What cattrs and Python's conversions are asked for: `str` of a list or a dict, `int` of a value,
-- and which of the unknown keys comes first.
pub record Conversions : Type 0 where
  pub show : Value → String
  pub to_int : Value → Result ℕ
  pub first_of : List String → String

abbrev pub int_field : Conversions → Option Value → Result ℕ
int_field conv none = ok 1
int_field conv (some v) = conv.to_int v

abbrev pub dict_field : Option Value → Result Fields
dict_field none = ok end
dict_field (some (obj d)) = ok d
dict_field (some _) = err attribute_error

-- A field of type `str | None` with the default `None`.
unfoldable pub text_field : Conversions → String → Fields → Option String
unfolding get opt_text
text_field conv key d = elim (get key d) [ none ↦ none | some v ↦ opt_text conv.show v ]

abbrev pub content_field : Conversions → Option Value → Result String
content_field conv none = err key_error
content_field conv (some v) = ok (text_of conv.show v)

-- The keys that are not known; the message of the exception names one.
abbrev pub forbid_extra : Conversions → List String → Result (Unit {0})
forbid_extra conv [] = ok tt
forbid_extra conv (k ∷ ks) = err (
    invalid_body (
      "Additional properties are not allowed (u'"
      <> (conv.first_of (k ∷ ks) <> "' was unexpected)")))

-- `cattrs.structure(data, cls)`, and the first of the errors that it groups.
unfoldable pub structure : Conversions → Fields → Result JunebugOutboundMessage
unfolding get text_field extra_fields check_outbound
structure conv d = do
  content ← content_field conv (get "content" d)
  priority ← int_field conv (get "priority" d)
  channel_data ← dict_field (get "channel_data" d)
  forbid_extra conv (extra_fields d)
  check_outbound (record {
    content = content;
    to = text_field conv "to" d;
    from_addr = text_field conv "from" d;
    group = text_field conv "group" d;
    reply_to = text_field conv "reply_to" d;
    event_url = text_field conv "event_url" d;
    event_auth_token = text_field conv "event_auth_token" d;
    priority = priority;
    channel_data = channel_data;
  })

-- `data["from"] = default_from` if there is no sender.
unfoldable pub with_from : Option String → Fields → Fields
unfolding get put
with_from default_from d = elim (get "from" d) [
  | none ↦ put "from" (opt_str default_from) d
  | some v ↦ if is_null v then put "from" (opt_str default_from) d else d
]

unfoldable pub deserialise :
    Conversions → (default_from : Option String) → Fields → Result JunebugOutboundMessage
unfolding with_from structure
deserialise conv default_from d = structure conv (with_from default_from d)

-- `_shared_vumi_fields`
pub record SharedFields : Type 0 where
  pub helper_metadata : Fields
  pub continue_session : Option Value
  pub session_event : Option Value

unfoldable pub shared_vumi_fields : JunebugOutboundMessage → SharedFields
shared_vumi_fields jom =
    let (continue_session, d) = pop "continue_session" jom.channel_data in
    let (session_event, d') = pop "session_event" d in
    record {
      helper_metadata = d';
      continue_session = continue_session;
      session_event = session_event;
    }

-- `to_vumi`. `Message.deserialise` passes over `continue_session`, which no field is named by, and
-- makes the text "None" of an address that is missing.
unfoldable pub to_vumi :
    (now : ℕ) (id transport_name : String) → TransportType → JunebugOutboundMessage → Result Message
unfolding new_message shared_vumi_fields session_of text_of
to_vumi now id transport_name transport_type jom =
    let shared = shared_vumi_fields jom in
    let text_or_none = λ (a : Option String). text_of (λ v. "") (opt_str a) in
    session_of none_ shared.session_event >>= λ session.
    ok
      (record (new_message now id (text_or_none jom.to) (text_or_none jom.from_addr) transport_name
        transport_type) {
          group = jom.group;
          content = some jom.content;
          session_event = session;
          helper_metadata = shared.helper_metadata;
        })

-- The keyword arguments of `reply`, but for `session_event`.
abbrev pub kwargs_of : SharedFields → List Kwarg
kwargs_of shared = elim shared.continue_session [
  | none ↦ Kwarg.helper_metadata shared.helper_metadata ∷ []
  | some v ↦ Kwarg.helper_metadata shared.helper_metadata ∷ Kwarg.other "continue_session" ∷ []
]

-- `reply_to_vumi`. A `session_event` that is given is not made a `Session` by `reply`: what becomes
-- of such a value is `keep`.
unfoldable pub reply_to_vumi :
    (keep : Value → Result Session)
    → (now : ℕ) (id : String) → (in_msg : Message) → JunebugOutboundMessage
    → Result Message
unfolding shared_vumi_fields reply
reply_to_vumi keep now id in_msg jom =
    let shared = shared_vumi_fields jom in
    let given : Result Session = elim shared.session_event [ none ↦ ok resume | some v ↦ keep v ] in
    given >>= λ session. reply in_msg now id (some jom.content) session (kwargs_of shared)
