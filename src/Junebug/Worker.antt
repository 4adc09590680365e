-- ===== src/Junebug/Worker.antt =====
-- `JunebugMessageApi` of src/vumi2/applications/junebug_message_api/junebug_message_api.py: inbound
-- messages and events that are posted, and the requests of the Junebug API. What comes from outside
-- is an argument: the answer to a request that is posted, and `Environment`.
pub mod Answers
pub mod Replies
pub mod Posting
pub mod Exchange
use vumi.Prelude.{
  ℕ, String, ◌<>◌, Bool, true, false, not, ◌||◌, Option, none, some, List, [], ◌∷◌, ◌++◌, ◌⊎◌, inl,
  inr, Error, attribute_error, message_not_found, json_decode_error, Result, ok, err, ◌>>=◌,
  if◌then◌else◌, ◌=?◌,
}
use vumi.Api.{
  Post, Reply, responded, raised, cancelled, TimeLimit, in_time, reading, publishing, failing,
  join_url, is_api_error, status, name, description, message,
}
use vumi.Messages.{Message, Event, Session, TransportType}
use vumi.Messages.Value.{Fields, Value, Items, cons, nil, obj, arr, str, num, field, end}
use vumi.Junebug
use vumi.Junebug.{EventHttpInfo, MemoryJunebugStateCache}
use vumi.Junebug.Outbound.{
  JunebugOutboundMessage, Conversions, junebug_inbound_from_msg, junebug_event_from_ev, deserialise,
  to_vumi, reply_to_vumi,
}

pub record JunebugMessageApiConfig : Type 0 where
  pub connector_name : String
  pub mo_message_url : String
  pub mo_message_url_auth_token : Option String
  pub default_event_url : Option String
  pub default_event_auth_token : Option String
  pub base_url_path : String
  pub transport_type : TransportType
  pub default_from_addr : Option String
  pub allow_expired_replies : Bool

-- `JunebugMessageApiConfig.url`
unfoldable pub url_of : JunebugMessageApiConfig → (path : String) → String
unfolding join_url
url_of config path = join_url config.base_url_path path

pub record JunebugMessageApi : Type 0 where
  pub state_cache : MemoryJunebugStateCache
  -- The messages that `publish_outbound` has sent.
  pub published : List Message
  pub posts : List Post

pub record Environment : Type 0 where
  pub conversions : Conversions
  -- `json.loads`: the text of the error, or the value.
  pub loads : String → String ⊎ Value
  pub show_time : ℕ → String
  pub keep : Value → Result Session

abbrev pub token_header : Option String → List (String × String)
token_header none = []
token_header (some token) = ("Authorization", "Token " <> token) ∷ []

-- A response of any status, and the time limit, are only logged.
abbrev pub answered : Reply → Result (Unit {0})
answered (raised e) = err e
answered (responded code) = ok tt
answered cancelled = ok tt

unfoldable pub handle_inbound_message :
    JunebugMessageApiConfig
    → Environment
    → Reply
    → (now stamp : ℕ) → Message
    → JunebugMessageApi
    → Result (Unit {0}) × JunebugMessageApi
unfolding Junebug.store_inbound
handle_inbound_message config env reply now stamp msg s =
    let post : Post = record {
      url = config.mo_message_url;
      json = junebug_inbound_from_msg env.show_time msg msg.transport_name;
      headers = token_header config.mo_message_url_auth_token;
    } in
    (
      answered reply,
      record s {
        state_cache = Junebug.store_inbound now stamp msg s.state_cache;
        posts = s.posts ++ (post ∷ []);
      },
    )

-- Where an event goes: the cached address, or else the configured one, if there is one.
abbrev pub event_address : JunebugMessageApiConfig → Option EventHttpInfo → Option EventHttpInfo
event_address config (some event_hi) = some event_hi
event_address config none = elim config.default_event_url [
  | none ↦ none
  | some url ↦ some (record { url = url; auth_token = config.default_event_auth_token })
]

abbrev pub event_post : JunebugMessageApiConfig → Environment → Event → EventHttpInfo → Post
event_post config env event event_hi = record {
  url = event_hi.url;
  json = junebug_event_from_ev env.show_time event config.connector_name;
  headers = token_header event_hi.auth_token;
}

-- `handle_event` from the address on.
unfoldable pub send_event :
    JunebugMessageApiConfig
    → Environment
    → Reply
    → Event
    → Option EventHttpInfo
    → JunebugMessageApi
    → Result (Unit {0}) × JunebugMessageApi
send_event config env reply event none s = (ok tt, s)
send_event config env reply event (some event_hi) s =
    (answered reply, record s { posts = s.posts ++ (event_post config env event event_hi ∷ []) })

unfoldable pub handle_event :
    JunebugMessageApiConfig
    → Environment
    → Reply
    → (now : ℕ) → Event
    → JunebugMessageApi
    → Result (Unit {0}) × JunebugMessageApi
unfolding Junebug.fetch_event_http_info send_event
handle_event config env reply now event s =
    let (found, cache) = Junebug.fetch_event_http_info now event.user_message_id s.state_cache in
    send_event config env reply event (event_address config found)
      (record s { state_cache = cache })

-- `build_outbound` with the message that was found for `reply_to`.
unfoldable pub build_reply :
    JunebugMessageApiConfig
    → Environment
    → (now : ℕ) (id reply_to : String) → JunebugOutboundMessage
    → Option Message
    → Result Message
unfolding to_vumi reply_to_vumi
build_reply config env now id reply_to jom (some inbound) =
    reply_to_vumi env.keep now id inbound jom
build_reply config env now id reply_to jom none =
    let not_found =
      err (message_not_found ("Inbound message with id " <> (reply_to <> " not found"))) in
    elim jom.to [
      | none ↦ not_found
      | some to ↦
          if config.allow_expired_replies
          then to_vumi now id config.connector_name config.transport_type jom
          else not_found
    ]

unfoldable pub build_outbound :
    JunebugMessageApiConfig
    → Environment
    → (now : ℕ) (id : String) → JunebugOutboundMessage
    → MemoryJunebugStateCache
    → Result Message × MemoryJunebugStateCache
unfolding build_reply Junebug.fetch_inbound
build_outbound config env now id jom c = elim jom.reply_to [
  | none ↦ (to_vumi now id config.connector_name config.transport_type jom, c)
  | some reply_to ↦
      let (found, c') = Junebug.fetch_inbound now reply_to c in
      (build_reply config env now id reply_to jom found, c')
]

-- `status.phrase`, for the statuses that the code uses.
unfoldable pub phrase : ℕ → String
phrase code =
    if code =? 201
    then "Created"
    else if code =? 400
    then "Bad Request"
    else if code =? 401
    then "Unauthorized"
    else "Internal Server Error"

pub record Response : Type 0 where
  -- The body, before `json.dumps`.
  pub body : Value
  pub code : ℕ
  pub headers : List (String × String)

-- `_response`
unfoldable pub response : (description : String) → Value → (status : ℕ) → Response
unfolding phrase
response description result status = record {
  body = obj (
      field "status" (num status) (
        field "code" (str (phrase status))
          (field "description" (str description) (field "result" result end))));
  code = status;
  headers = ("Content-Type", "application/json") ∷ [];
}

-- The `except` clause.
unfoldable pub error_response : Error → Response
unfolding response name message description status
error_response e =
    let entry = field "type" (str (name e)) (field "message" (str (message e)) end) in
    response (description e) (obj (field "errors" (arr (cons (obj entry) nil)) end)) (status e)

-- A call that ran out of time returns `None`.
abbrev pub Returned : Type 0
Returned = Result (Option Response)

abbrev pub caught : Error → Returned
caught e = if is_api_error e then ok (some (error_response e)) else err e

-- `store_event_http_info`, if the request gives a URL.
unfoldable pub store_event_info :
    (now stamp : ℕ) (message_id : String)
    → JunebugOutboundMessage
    → MemoryJunebugStateCache
    → MemoryJunebugStateCache
unfolding Junebug.store_event_http_info
store_event_info now stamp message_id jom c = elim jom.event_url [
  | none ↦ c
  | some url ↦ Junebug.store_event_http_info now stamp message_id url jom.event_auth_token c
]

abbrev pub sent : Message → JunebugMessageApi → JunebugMessageApi
sent msg s = record s { published = s.published ++ (msg ∷ []) }

-- `publish_outbound` and the response. A call that is cut off may have sent the message.
unfoldable pub publish :
    JunebugMessageApiConfig
    → Environment
    → TimeLimit
    → Message
    → JunebugMessageApi
    → Returned × JunebugMessageApi
unfolding response
publish config env in_time msg s =
    let rmsg = junebug_inbound_from_msg env.show_time msg config.connector_name in
    (ok (some (response "message submitted" rmsg 201)), sent msg s)
publish config env reading msg s = (ok none, s)
publish config env (publishing is_sent) msg s = (ok none, if is_sent then sent msg s else s)
publish config env (failing is_sent e) msg s = (caught e, if is_sent then sent msg s else s)

-- From the message on.
unfoldable pub send_outbound :
    JunebugMessageApiConfig
    → Environment
    → TimeLimit
    → (now stamp : ℕ) → JunebugOutboundMessage
    → Message
    → JunebugMessageApi
    → Returned × JunebugMessageApi
unfolding store_event_info publish
send_outbound config env limit now stamp jom msg s =
    let stored = record s {
      state_cache = store_event_info now stamp msg.message_id jom s.state_cache;
    } in
    publish config env limit msg stored

-- From what `build_outbound` gives on.
unfoldable pub send_built :
    JunebugMessageApiConfig
    → Environment
    → TimeLimit
    → (now stamp : ℕ) → JunebugOutboundMessage
    → Result Message × MemoryJunebugStateCache
    → JunebugMessageApi
    → Returned × JunebugMessageApi
unfolding send_outbound
send_built config env limit now stamp jom (err e, cache) s =
    (caught e, record s { state_cache = cache })
send_built config env limit now stamp jom (ok msg, cache) s =
    send_outbound config env limit now stamp jom msg (record s { state_cache = cache })

-- From the request on, with what `deserialise` makes of it, unless the time limit passes before.
unfoldable pub send_message :
    JunebugMessageApiConfig
    → Environment
    → TimeLimit
    → (now stamp : ℕ) (id : String) → Result JunebugOutboundMessage
    → JunebugMessageApi
    → Returned × JunebugMessageApi
unfolding build_outbound send_built
send_message config env reading now stamp id decoded s = (ok none, s)
send_message config env limit now stamp id (err e) s = (caught e, s)
send_message config env limit now stamp id (ok jom) s =
    send_built config env limit now stamp jom (build_outbound config env now id jom s.state_cache) s

-- `json.loads` and `deserialise`; a body that is no object has no `get`.
unfoldable pub decode_request :
    JunebugMessageApiConfig → Environment → (body : String) → Result JunebugOutboundMessage
unfolding deserialise
decode_request config env body = elim (env.loads body) [
  | inl text_ ↦ err (json_decode_error text_)
  | inr v ↦ elim v [
    | obj d ↦ deserialise env.conversions config.default_from_addr d
    | _ ↦ err attribute_error
  ]
]

unfoldable pub http_send_message :
    JunebugMessageApiConfig
    → Environment
    → TimeLimit
    → (now stamp : ℕ) (id body : String) → JunebugMessageApi
    → Returned × JunebugMessageApi
unfolding decode_request send_message
http_send_message config env limit now stamp id body s =
    send_message config env limit now stamp id (decode_request config env body) s
