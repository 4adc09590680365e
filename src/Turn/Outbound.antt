-- ===== src/Turn/Outbound.antt =====
-- `TurnOutboundMessage` of src/vumi2/applications/turn_channels_api/messages.py. A request's values
-- have no checked type, so the fields hold them as they come; where one becomes a text of a
-- `Message`, it is the text that `str` makes of it.
use vumi.Prelude.{
  ℕ, String, ◌<>◌, false, not, ◌&&◌, Option, none, some, List, [], ◌∷◌, api_usage_error, type_error,
  Result, ok, err, ◌>>=◌, ◌>>◌, raise_if, if◌then◌else◌, string_eq,
}
use vumi.Messages.Value.{
  Fields, Value, end, obj, str, bool, get, pop, is_null, get_or, is_true, has_key, item, text_of,
  opt_text, opt_str,
}
use vumi.Messages.{
  Message, Session, TransportType, Kwarg, resume, close, new_message, reply, session_of,
}

pub record TurnOutboundMessage : Type 0 where
  pub content : Value
  pub to : Value
  pub from_addr : Option String
  pub reply_to : Value
  pub priority : ℕ
  pub waiting_for_user_input : Value
  pub channel_data : Fields

-- `__attrs_post_init__`
unfoldable pub check_outbound : TurnOutboundMessage → Result TurnOutboundMessage
check_outbound tom =
    raise_if (is_null tom.to && is_null tom.reply_to)
      (api_usage_error "Either \"to\" or \"reply_to\" must be specified")
    >>= λ _. ok tom

-- `for key in keys: if key not in data: raise ApiUsageError(…)`
unfoldable pub check_keys : List String → Fields → Result (Unit {0})
unfolding get
check_keys [] d = ok tt
check_keys (key ∷ keys) d = elim (get key d) [
  | none ↦ err (api_usage_error ("Missing key: " <> key))
  | some v ↦ check_keys keys d
]

-- `data["turn"]["text"]["body"]` behind the two tests.
unfoldable pub body_of : Value → Result Value
unfolding has_key item
body_of turn = do
  present ← has_key "text" turn
  raise_if (not present) (api_usage_error "Missing key: turn.text")
  text_ ← item "text" turn
  inside ← has_key "body" text_
  raise_if (not inside) (api_usage_error "Missing key: turn.text.body")
  item "body" text_

-- `deserialise`
unfoldable pub deserialise : (default_from : Option String) → Fields → Result TurnOutboundMessage
unfolding check_keys item check_outbound
deserialise default_from d = do
  check_keys ("context" ∷ "turn" ∷ "to" ∷ []) d
  turn ← item "turn" (obj d)
  content ← body_of turn
  to ← item "to" (obj d)
  check_outbound (record {
    content = content;
    to = to;
    from_addr = default_from;
    reply_to = get_or "reply_to" (str "") d;
    priority = 1;
    waiting_for_user_input = get_or "waiting_for_user_input" (bool false) d;
    channel_data = end;
  })

-- `_shared_vumi_fields`
pub record SharedFields : Type 0 where
  pub helper_metadata : Fields
  pub continue_session : Option Value
  pub session_event : Option Value

unfoldable pub shared_vumi_fields : TurnOutboundMessage → SharedFields
unfolding pop
shared_vumi_fields tom =
    let (continue_session, d) = pop "continue_session" tom.channel_data in
    let (session_event, d') = pop "session_event" d in
    record {
      helper_metadata = d';
      continue_session = continue_session;
      session_event = session_event;
    }

-- `Session.RESUME if self.waiting_for_user_input else Session.CLOSE`
abbrev pub own_event : TurnOutboundMessage → Session
own_event tom = if is_true tom.waiting_for_user_input then resume else close

-- `to_vumi`. `Message.deserialise` passes over `continue_session`, which no field is named by.
unfoldable pub to_vumi :
    (show : Value → String) (now : ℕ) (id transport_name : String)
    → TransportType
    → TurnOutboundMessage
    → Result Message
unfolding new_message shared_vumi_fields text_of opt_text is_true session_of
to_vumi show now id transport_name transport_type tom =
    let shared = shared_vumi_fields tom in
    session_of (own_event tom) shared.session_event >>= λ session.
    ok
      (record (new_message now id (text_of show tom.to) (text_of show (opt_str tom.from_addr))
        transport_name transport_type) {
          content = opt_text show tom.content;
          session_event = session;
          helper_metadata = shared.helper_metadata;
        })

-- The keyword arguments of `**self._shared_vumi_fields()`, but for `session_event`.
abbrev pub kwargs_of : SharedFields → List Kwarg
kwargs_of shared = elim shared.continue_session [
  | none ↦ Kwarg.helper_metadata shared.helper_metadata ∷ []
  | some v ↦ Kwarg.helper_metadata shared.helper_metadata ∷ Kwarg.other "continue_session" ∷ []
]

-- `reply_to_vumi`: `session_event` given twice is a `TypeError`. The message has its content as it
-- came; for one that is no text, what `str` makes of it stands here.
unfoldable pub reply_to_vumi :
    (show : Value → String) (now : ℕ) (id : String)
    → (in_msg : Message) → TurnOutboundMessage
    → Result Message
unfolding shared_vumi_fields opt_text is_true reply
reply_to_vumi show now id in_msg tom =
    let shared = shared_vumi_fields tom in
    elim shared.session_event [
      | some v ↦ err type_error
      | none ↦ reply in_msg now id (opt_text show tom.content) (own_event tom) (kwargs_of shared)
    ]
