-- ===== src/Turn/Worker.antt =====
-- `TurnChannelsApi` of src/vumi2/applications/turn_channels_api/turn_channels_api.py: the delivery
-- of inbound messages with its retries, that of events, and the requests of the Turn API.
--
-- What comes from outside is an argument: `Network` has the answers of the server by the number of
-- the attempt, the numbers that `secrets` draws, and whether the time limit passes in a wait;
-- `Environment` has the JSON decoder, the signature function and `str` for lists and dicts.
pub mod Retry
pub mod Events
pub mod Requests
pub mod Outgoing
use vumi.Prelude.{
  ℕ, zero, suc, ◌+◌, ◌*◌, ◌^◌, ◌%◌, String, ◌<>◌, Bool, true, false, ◌&&◌, Option, none, some, List,
  [], ◌∷◌, ◌++◌, ◌⊎◌, inl, inr, ltb, leb, ◌=?◌, ◌==◌, string_eq, lstrip, rstrip, is_ascii, Error,
  timeout_error, value_error, type_error, attribute_error, key_error, unbound_local_error,
  json_decode_error, signature_mismatch_error, http_error_response, Result, ok, err, ◌>>=◌,
  raise_if, not, if◌then◌else◌,
}
use vumi.Api.{
  join_url, Post, Reply, responded, raised, cancelled, is_success, TimeLimit, in_time, reading,
  publishing, failing,
}
use vumi.Messages.{Message, Event, TransportType}
use vumi.Messages.Value.{Fields, Value, obj, str, null, get, put}
use vumi.Cache.MessageCache.{MemoryMessageCache}
use vumi.Cache.MessageCache
use vumi.Turn.{turn_inbound_from_msg, turn_outbound_from_msg, turn_event_from_ev}
use vumi.Turn.Outbound.{TurnOutboundMessage, deserialise, to_vumi, reply_to_vumi}

pub record TurnChannelsApiConfig : Type 0 where
  pub connector_name : String
  pub vumi_api_path : String
  pub turn_api_url : String
  pub auth_token : String
  pub transport_type : TransportType
  pub default_from_addr : String
  pub turn_hmac_secret : String
  pub max_retries : ℕ
  pub retry_delay_exponent : ℕ
  pub retry_delay_base : ℕ

unfoldable pub vumi_url : TurnChannelsApiConfig → String → String
unfolding join_url
vumi_url config path = join_url config.vumi_api_path path

unfoldable pub turn_url : TurnChannelsApiConfig → String → String
unfolding join_url
turn_url config path = join_url config.turn_api_url path

pub record TurnChannelsApi : Type 0 where
  pub message_cache : MemoryMessageCache
  -- The messages that `publish_outbound` has sent.
  pub published : List Message
  pub posts : List Post
  -- The delays of `_backoff`, in seconds.
  pub sleeps : List ℕ
  -- The counter `turn_rate_limit_retry`: its labels, one for each increment.
  pub retries : List ℕ

pub record Network : Type 0 where
  pub reply : (attempt : ℕ) → Reply
  pub random : (attempt : ℕ) → ℕ
  pub sleep_cancelled : (attempt : ℕ) → Bool

abbrev pub bearer : TurnChannelsApiConfig → List (String × String)
bearer config = ("Authorization", "Bearer " <> config.auth_token) ∷ []

abbrev pub bound_of : TurnChannelsApiConfig → ℕ → ℕ
bound_of config attempt = config.retry_delay_base ^ (attempt * config.retry_delay_exponent)

-- `_backoff`: `secrets.randbelow` refuses 0.
unfoldable pub backoff :
    TurnChannelsApiConfig
    → Network
    → (attempt : ℕ) → TurnChannelsApi
    → Result (Unit {0}) × TurnChannelsApi
backoff config net attempt s = if bound_of config attempt =? 0 then (err value_error, s) else (
  if net.sleep_cancelled attempt then err timeout_error else ok tt,
  record s { sleeps = s.sleeps ++ ((net.random attempt % bound_of config attempt) ∷ []) },
)

-- The `except` clause, with the rounds that are left as `next`.
unfoldable pub attempt_failed :
    TurnChannelsApiConfig
    → Network
    → (attempt : ℕ) → Error
    → (next : TurnChannelsApi → Result (Unit {0}) × TurnChannelsApi) → TurnChannelsApi
    → Result (Unit {0}) × TurnChannelsApi
unfolding backoff
attempt_failed config net attempt e next s =
    let counted = record s { retries = s.retries ++ ((attempt + 1) ∷ []) } in
    if ltb attempt config.max_retries
    then (let (res, waited) = backoff config net attempt counted in
        elim res [ err e' ↦ (err e', waited) | ok _ ↦ next waited ])
    else (err e, counted)

-- What a round does with the answer to its request.
unfoldable pub after_reply :
    TurnChannelsApiConfig
    → Network
    → (attempt : ℕ) → Reply
    → (next : TurnChannelsApi → Result (Unit {0}) × TurnChannelsApi) → TurnChannelsApi
    → Result (Unit {0}) × TurnChannelsApi
unfolding attempt_failed
after_reply config net attempt cancelled next s = (err timeout_error, s)
after_reply config net attempt (raised e) next s = attempt_failed config net attempt e next s
after_reply config net attempt (responded code) next s =
    if is_success code
    then (ok tt, s)
    else attempt_failed config net attempt (http_error_response code) next s

-- The `for` loop: `rounds` are left of the range, from `attempt` on.
unfoldable pub post_rounds :
    TurnChannelsApiConfig
    → Network
    → Post
    → (rounds attempt : ℕ) → TurnChannelsApi
    → Result (Unit {0}) × TurnChannelsApi
unfolding after_reply
post_rounds config net post zero attempt s = (ok tt, s)
post_rounds config net post (suc rounds) attempt s =
    after_reply config net attempt (net.reply attempt)
      (post_rounds config net post rounds (attempt + 1))
      (record s { posts = s.posts ++ (post ∷ []) })

abbrev pub inbound_post : TurnChannelsApiConfig → Message → Post
inbound_post config message = record {
  url = turn_url config "/messages";
  json = turn_inbound_from_msg message;
  headers = bearer config;
}

unfoldable pub handle_inbound_message :
    TurnChannelsApiConfig
    → Network
    → (now stamp : ℕ) → Message
    → TurnChannelsApi
    → Result (Unit {0}) × TurnChannelsApi
unfolding MessageCache.store_inbound post_rounds
handle_inbound_message config net now stamp message s =
    post_rounds config net (inbound_post config message) (config.max_retries + 1) 0
      (record s { message_cache = MessageCache.store_inbound now stamp message s.message_cache })

-- `fetch_outbound(event.sent_message_id)`: no message is stored under `None`, and what has expired
-- is removed all the same.
unfoldable pub fetch_sent :
    (now : ℕ) → Option String → MemoryMessageCache → Option Message × MemoryMessageCache
unfolding MessageCache.fetch_outbound
fetch_sent now none c = (none, (MessageCache.fetch_outbound now "" c).1)
fetch_sent now (some id) c = MessageCache.fetch_outbound now id c

-- `handle_event`. A response of any status, and the time limit, are only logged; another exception
-- goes on.
unfoldable pub handle_event :
    TurnChannelsApiConfig
    → Reply
    → (now : ℕ) → Event
    → TurnChannelsApi
    → Result (Unit {0}) × TurnChannelsApi
unfolding fetch_sent
handle_event config reply now event s =
    let (found, cache) = fetch_sent now event.sent_message_id s.message_cache in
    let s' = record s { message_cache = cache } in
    elim found [
      | none ↦ (ok tt, s')
      | some outbound ↦
          let post : Post = record {
            url = turn_url config "/statuses";
            json = turn_event_from_ev event outbound;
            headers = bearer config;
          } in
          (
            elim reply [ raised e ↦ err e | responded code ↦ ok tt | cancelled ↦ ok tt ],
            record s' { posts = s'.posts ++ (post ∷ []) },
          )
    ]

pub record Environment : Type 0 where
  -- `json.loads`: the text of the error, or the value.
  pub loads : String → String ⊎ Value
  -- The Base64 text of the HMAC, by the secret and the text that is signed.
  pub sign : String → String → String
  pub show : Value → String

pub record TurnRequest : Type 0 where
  pub body : String
  -- The header `X-Turn-Hook-Signature`.
  pub signature : Option String
  pub limit : TimeLimit

abbrev pub header_or_empty : Option String → String
header_or_empty none = ""
header_or_empty (some v) = v

-- `_verify_hmac`. `hmac.compare_digest` takes ASCII texts only.
unfoldable pub verify_hmac : TurnChannelsApiConfig → Environment → TurnRequest → Result (Unit {0})
unfolding is_ascii
verify_hmac config env request =
    if config.turn_hmac_secret == ""
    then ok tt
    else (let given = header_or_empty request.signature in
        let computed = env.sign config.turn_hmac_secret request.body in
        if is_ascii given && is_ascii computed
        then raise_if (not (computed == given)) signature_mismatch_error
        else err type_error)

-- `fetch_last_inbound_by_from_address(to)`: no message has an address that is no text.
unfoldable pub fetch_last :
    (now : ℕ) → Value → MemoryMessageCache → Option Message × MemoryMessageCache
unfolding MessageCache.fetch_last_inbound_by_from_address
fetch_last now (str address) c = MessageCache.fetch_last_inbound_by_from_address now address c
fetch_last now _ c = (none, (MessageCache.fetch_last_inbound_by_from_address now "" c).1)

-- The local variable `inbound` after the `if`: unbound, or bound to a message or `None`.
pub data Inbound : Type 0 where
  unbound : Inbound
  bound : Option Message → Inbound

-- `msg_dict.get("reply_to", "") == ""`
abbrev pub lacks_reply_to : Fields → Bool
lacks_reply_to d = elim (get "reply_to" d) [ none ↦ true | some (str t) ↦ t == "" | some _ ↦ false ]

abbrev pub with_reply_to : Option Message → Fields → Fields
with_reply_to none d = d
with_reply_to (some inbound) d = put "reply_to" (str inbound.message_id) d

-- The search by `msg_dict["to"]`.
unfoldable pub search_to :
    (now : ℕ)
    → Option Value
    → Fields
    → MemoryMessageCache
    → Result (Inbound × Fields) × MemoryMessageCache
unfolding fetch_last put
search_to now none d c = (err key_error, c)
search_to now (some to) d c =
    let (found, c') = fetch_last now to c in (ok (bound found, with_reply_to found d), c')

-- The `if` around the search: `inbound`, the request and the cache after it.
unfoldable pub find_inbound :
    (now : ℕ) → Fields → MemoryMessageCache → Result (Inbound × Fields) × MemoryMessageCache
unfolding search_to get
find_inbound now d c =
    if lacks_reply_to d then search_to now (get "to" d) d c else (ok (unbound, d), c)

unfoldable pub build_outbound :
    TurnChannelsApiConfig
    → Environment
    → (now : ℕ) (id : String) → TurnOutboundMessage
    → Inbound
    → Result Message
unfolding to_vumi reply_to_vumi
build_outbound config env now id tom unbound = err unbound_local_error
build_outbound config env now id tom (bound none) =
    to_vumi env.show now id config.connector_name config.transport_type tom
build_outbound config env now id tom (bound (some inbound)) =
    reply_to_vumi env.show now id inbound tom

-- From `store_outbound` on.
unfoldable pub send_outbound :
    TimeLimit → (now stamp : ℕ) → Message → TurnChannelsApi → Result Value × TurnChannelsApi
unfolding MessageCache.store_outbound
send_outbound limit now stamp outbound s =
    let stored = record s {
      message_cache = MessageCache.store_outbound now stamp outbound s.message_cache;
    } in
    let sent = record stored { published = s.published ++ (outbound ∷ []) } in
    elim limit [
      | publishing is_sent ↦ (err timeout_error, if is_sent then sent else stored)
      | failing is_sent e ↦ (err e, if is_sent then sent else stored)
      | reading ↦ (err timeout_error, stored)
      | in_time ↦ (ok (turn_outbound_from_msg outbound), sent)
    ]

-- From the search for the message on, with what it gave.
unfoldable pub send_found :
    TurnChannelsApiConfig
    → Environment
    → TimeLimit
    → (now stamp : ℕ) (id : String) → Result (Inbound × Fields) × MemoryMessageCache
    → TurnChannelsApi
    → Result Value × TurnChannelsApi
unfolding deserialise build_outbound send_outbound
send_found config env limit now stamp id (found, cache) s =
    let built = found >>= λ f. deserialise (some config.default_from_addr) f.1 >>= λ tom.
    build_outbound config env now id tom f.0 in
    elim built [
      | err e ↦ (err e, record s { message_cache = cache })
      | ok outbound ↦ send_outbound limit now stamp outbound (record s { message_cache = cache })
    ]

-- From the decoded request on.
unfoldable pub send_decoded :
    TurnChannelsApiConfig
    → Environment
    → TimeLimit
    → (now stamp : ℕ) (id : String) → Value
    → TurnChannelsApi
    → Result Value × TurnChannelsApi
unfolding find_inbound send_found
send_decoded config env limit now stamp id (obj d) s =
    send_found config env limit now stamp id (find_inbound now d s.message_cache) s
send_decoded config env limit now stamp id _ s = (err attribute_error, s)

-- The body of the request, verified and decoded.
unfoldable pub decode_request : TurnChannelsApiConfig → Environment → TurnRequest → Result Value
unfolding verify_hmac
decode_request config env request = verify_hmac config env request >>= λ _.
    elim (env.loads request.body) [ inl text_ ↦ err (json_decode_error text_) | inr v ↦ ok v ]

-- The request once its body has come, unless the time limit passes before that.
unfoldable pub send_result :
    TurnChannelsApiConfig
    → Environment
    → (now stamp : ℕ) (id : String) → TimeLimit
    → Result Value
    → TurnChannelsApi
    → Result Value × TurnChannelsApi
unfolding send_decoded
send_result config env now stamp id reading decoded s = (err timeout_error, s)
send_result config env now stamp id limit (err e) s = (err e, s)
send_result config env now stamp id limit (ok v) s = send_decoded config env limit now stamp id v s

-- An `ApiError` is logged and raised again.
unfoldable pub http_send_message :
    TurnChannelsApiConfig
    → Environment
    → (now stamp : ℕ) (id : String) → TurnRequest
    → TurnChannelsApi
    → Result Value × TurnChannelsApi
unfolding decode_request send_result
http_send_message config env now stamp id request s =
    send_result config env now stamp id request.limit (decode_request config env request) s
