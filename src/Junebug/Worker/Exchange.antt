-- ===== src/Junebug/Worker/Exchange.antt =====
-- Calls of `JunebugMessageApi`
-- (src/vumi2/applications/junebug_message_api/junebug_message_api.py) that follow one another: a
-- reply to a message that came in, and an event on a message that went out.
use mathlib.Core.Path.{subst}
use vumi.Prelude.{
  ℕ, String, Bool, false, ◌≤◌, ◌≡◌, refl, sym, ap, ◌∙◌, Option, none, some, [], ◌∷◌, ◌++◌, ok,
  if◌then◌else◌,
}
use vumi.Api.{Reply, in_time}
use vumi.Messages.{Message, Event}
use vumi.Cache.TimeoutDict.{TimeoutDict, is_expired}
use vumi.Cache.TimeoutDict.Expiry.{IsValid}
use vumi.Cache.TimeoutDict.Laws.{view}
use vumi.Junebug
use vumi.Junebug.{EventHttpInfo, MemoryJunebugStateCache}
use vumi.Junebug.StateCache.{fetch_event_http_info_lem}
use vumi.Junebug.Outbound.{JunebugOutboundMessage, shared_vumi_fields, junebug_inbound_from_msg}
use vumi.Junebug.Worker.{
  JunebugMessageApiConfig, JunebugMessageApi, Environment, response, handle_inbound_message,
  handle_event, build_reply, build_outbound, store_event_info, publish, send_outbound, send_built,
  send_message, decode_request, http_send_message,
}
use vumi.Junebug.Worker.Posting.{event_posts, handle_event-posts}
use vumi.Junebug.Worker.Replies.{RepliesTo, fetch_inbound-stored, replied, submitted}

-- A message that `handle_inbound_message` has taken can be replied to until the timeout of the cache
-- has passed: a request in time that names its id, with no value for `session_event` or
-- `continue_session`, publishes a message to its sender, from its receiver, over its transport, in
-- its group, with its id as the one replied to and with the text of the request, and the response
-- describes that message. The cache was valid.
pub http_send_message-RepliesTo :
    (config : JunebugMessageApiConfig) (env : Environment) (reply : Reply)
    (before stored now stamp : ℕ) (id body : String) (m : Message) (jom : JunebugOutboundMessage)
    (s : JunebugMessageApi)
    → before ≤ stored
    → stored ≤ now
    → IsValid before s.state_cache.inbound
    → is_expired now s.state_cache.inbound.timeout stored ≡ false
    → decode_request config env body ≡ ok jom
    → jom.reply_to ≡ some m.message_id
    → (shared_vumi_fields jom).session_event ≡ none
    → (shared_vumi_fields jom).continue_session ≡ none
    → let t = (handle_inbound_message config env reply before stored m s).1 in
      (r : Message) × ((http_send_message config env in_time now stamp id body t).0
        ≡ ok (
            some (
              response "message submitted"
                (junebug_inbound_from_msg env.show_time r config.connector_name)
                201)))
      × ((http_send_message config env in_time now stamp id body t).1.published
          ≡ s.published ++ (r ∷ []))
      × RepliesTo m jom r
unfolding handle_inbound_message build_reply
http_send_message-RepliesTo config env reply before stored now stamp id body m jom s b d h fresh
      decoded asked plain ends =
    let t = (handle_inbound_message config env reply before stored m s).1 in
    let found = fetch_inbound-stored before stored now m s.state_cache b d h ∙ rw fresh refl in
    let (r, built, good) =
      replied config env now stamp id body m.message_id jom t decoded asked plain m ends in
    let (res, published) =
      submitted config env now stamp id body m.message_id jom t decoded asked plain (some m) r found
        built in
    (r, res, published, good)

-- `build_outbound` reads the inbound messages only.
build_outbound-events :
    (config : JunebugMessageApiConfig) (env : Environment) (now : ℕ) (id : String)
    (jom : JunebugOutboundMessage) (c : MemoryJunebugStateCache)
    → ((build_outbound config env now id jom c).1.event_http_info ≡ c.event_http_info)
      × ((build_outbound config env now id jom c).1.store_event_info ≡ c.store_event_info)
unfolding build_outbound
build_outbound-events config env now id jom c = go jom.reply_to refl
  where
    go :
        (r : Option String)
        → jom.reply_to ≡ r
        → ((build_outbound config env now id jom c).1.event_http_info ≡ c.event_http_info)
          × ((build_outbound config env now id jom c).1.store_event_info ≡ c.store_event_info)
    go none h = rw (h, build_outbound) (refl, refl)
    go (some r) h = rw (h, build_outbound) (refl, refl)

-- The state after a request is served.
served :
    (config : JunebugMessageApiConfig) (env : Environment) (now stamp : ℕ) (id body : String)
    (jom : JunebugOutboundMessage) (m : Message) (s : JunebugMessageApi)
    → decode_request config env body ≡ ok jom
    → (build_outbound config env now id jom s.state_cache).0 ≡ ok m
    → let t = (http_send_message config env in_time now stamp id body s).1 in
      (t.state_cache
        ≡ store_event_info now stamp m.message_id jom
            (build_outbound config env now id jom s.state_cache).1)
      × (t.posts ≡ s.posts)
unfolding http_send_message send_message send_built send_outbound publish
served config env now stamp id body jom m s decoded built =
    rw (decoded, http_send_message, send_message, built, send_built) (refl, refl)

stored_url :
    (now stamp : ℕ) (id url : String) (jom : JunebugOutboundMessage) (c : MemoryJunebugStateCache)
    → jom.event_url ≡ some url
    → store_event_info now stamp id jom c
      ≡ Junebug.store_event_http_info now stamp id url jom.event_auth_token c
unfolding store_event_info
stored_url now stamp id url jom c given = rw (given, store_event_info) refl

stored_info :
    (config : JunebugMessageApiConfig) (env : Environment) (now stamp later : ℕ) (id url : String)
    (jom : JunebugOutboundMessage) (m : Message) (c : MemoryJunebugStateCache)
    → now ≤ stamp
    → stamp ≤ later
    → IsValid now c.event_http_info
    → jom.event_url ≡ some url
    → (Junebug.fetch_event_http_info later m.message_id
        (store_event_info now stamp m.message_id jom (build_outbound config env now id jom c).1)).0
      ≡ (if c.store_event_info
          then (if is_expired later c.event_http_info.timeout stamp
              then none
              else some (record { url = url; auth_token = jom.event_auth_token }))
          else view later m.message_id c.event_http_info)
stored_info config env now stamp later id url jom m c b d h given =
    let c' = (build_outbound config env now id jom c).1 in
    let (same, flag) = build_outbound-events config env now id jom c in
    let stored =
      (fetch_event_http_info_lem now stamp later m.message_id url jom.event_auth_token c' b d
        (subst (λ x. IsValid now x) (sym same) h)).0 in
    ap (λ x. (Junebug.fetch_event_http_info later m.message_id x).0)
      (stored_url now stamp m.message_id url jom c' given)
    ∙ stored
    ∙ ap
        (λ (x : TimeoutDict EventHttpInfo × Bool).
          if x.1
          then (if is_expired later x.0.timeout stamp
              then none
              else some (record { url = url; auth_token = jom.event_auth_token }))
          else view later m.message_id x.0)
        (λ i. (same i, flag i))

-- After a request that is served in time, with the URL `url` for events, an event on its message is
-- posted once, to that URL with the token of the request, if events are stored and the timeout of
-- the cache has not passed. If that timeout has passed it is posted to the configured URL with the
-- configured token, or to none if there is none. If events are not stored, what counts is the
-- address that the cache had before. What is posted has the id of the message, the type of the event
-- and, for a rejection, its reason. The cache was valid.
pub handle_event_after_send :
    (config : JunebugMessageApiConfig) (env : Environment) (reply : Reply) (now stamp later : ℕ)
    (id body url : String) (jom : JunebugOutboundMessage) (m : Message) (event : Event)
    (s : JunebugMessageApi)
    → now ≤ stamp
    → stamp ≤ later
    → IsValid now s.state_cache.event_http_info
    → decode_request config env body ≡ ok jom
    → (build_outbound config env now id jom s.state_cache).0 ≡ ok m
    → jom.event_url ≡ some url
    → event.user_message_id ≡ m.message_id
    → (handle_event config env reply later event
        (http_send_message config env in_time now stamp id body s).1).1.posts
      ≡ s.posts
        ++ event_posts config env event (
            if s.state_cache.store_event_info
            then (if is_expired later s.state_cache.event_http_info.timeout stamp
                then none
                else some (record { url = url; auth_token = jom.event_auth_token }))
            else view later m.message_id s.state_cache.event_http_info)
handle_event_after_send config env reply now stamp later id body url jom m event s b d h decoded
      built given named =
    let t = (http_send_message config env in_time now stamp id body s).1 in
    let (cache, posts) = served config env now stamp id body jom m s decoded built in
    handle_event-posts config env reply later event t
    ∙ (λ i.
        posts i
        ++ event_posts config env event (Junebug.fetch_event_http_info later (named i) (cache i)).0)
    ∙ ap (λ a. s.posts ++ event_posts config env event a)
        (stored_info config env now stamp later id url jom m s.state_cache b d h given)
