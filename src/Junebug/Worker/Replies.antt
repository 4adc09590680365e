-- ===== src/Junebug/Worker/Replies.antt =====
-- Replies that `JunebugMessageApi`
-- (src/vumi2/applications/junebug_message_api/junebug_message_api.py) is asked for over HTTP.
use vumi.Prelude.{
  ℕ, String, ◌<>◌, Bool, true, false, ◌≤◌, ◌≡◌, refl, ap, ◌∙◌, Option, none, some, [], ◌∷◌, ◌++◌,
  Error, type_error, message_not_found, ok, err, string_eq, beq_self, if◌then◌else◌, ◌⊎◌, inl, inr,
  arith,
}
use vumi.Api.{in_time, is_api_error}
use vumi.Messages.{Message, Kwarg, resume, none_, new_message, reply}
use vumi.Messages.Value.{Value, opt_str, text_of}
use vumi.Cache.TimeoutDict.{is_expired, set_item}
use vumi.Cache.TimeoutDict.Expiry.{IsValid}
use vumi.Cache.TimeoutDict.Laws.{get_item-eq-view, view-set_item, methods-IsValid, IsValid-later}
use vumi.Junebug
use vumi.Junebug.{MemoryJunebugStateCache}
use vumi.Junebug.Outbound.{
  JunebugOutboundMessage, shared_vumi_fields, to_vumi, reply_to_vumi, junebug_inbound_from_msg,
}
use vumi.Junebug.Worker.{
  JunebugMessageApiConfig, JunebugMessageApi, Environment, Returned, caught, response,
  error_response, build_reply, build_outbound, publish, send_outbound, send_built, send_message,
  decode_request, http_send_message,
}

-- The message that an earlier call of `handle_inbound_message` stored.
pub fetch_inbound-stored :
    (now stamp later : ℕ) (m : Message) (c : MemoryJunebugStateCache)
    → now ≤ stamp
    → stamp ≤ later
    → IsValid now c.inbound
    → (Junebug.fetch_inbound later m.message_id (Junebug.store_inbound now stamp m c)).0
      ≡ (if is_expired later c.inbound.timeout stamp then none else some m)
unfolding Junebug.fetch_inbound Junebug.store_inbound
fetch_inbound-stored now stamp later m c b d h =
    let id = m.message_id in
    get_item-eq-view later id (set_item now stamp id m c.inbound)
      (IsValid-later d (methods-IsValid now stamp id m c.inbound b h).0)
    ∙ view-set_item now stamp later id id m c.inbound b d h
    ∙ rw (beq_self id) refl

-- What a reply has of the message that it answers and of the request.
pub record RepliesTo (m : Message) (jom : JunebugOutboundMessage) (r : Message) : Type 0 where
  pub to_addr : r.to_addr ≡ m.from_addr
  pub from_addr : r.from_addr ≡ m.to_addr
  pub transport_name : r.transport_name ≡ m.transport_name
  pub group : r.group ≡ m.group
  pub in_reply_to : r.in_reply_to ≡ some m.message_id
  pub content : r.content ≡ some jom.content
  pub session_event : r.session_event ≡ resume

-- What becomes of a reply to a message that is not found: with an address and the permission to
-- send expired replies it goes to the address as a message that is no reply.
abbrev pub Fallback :
    JunebugMessageApiConfig
    → Environment
    → (reply_to : String) → JunebugOutboundMessage
    → JunebugMessageApi
    → Option String
    → Bool
    → Returned × JunebugMessageApi
    → Type 0
Fallback config env reply_to jom s (some to) true (res, t) =
    (r : Message) × (res
      ≡ ok (
          some (
            response "message submitted"
              (junebug_inbound_from_msg env.show_time r config.connector_name) 201)))
    × (t.published ≡ s.published ++ (r ∷ []))
    × (r.to_addr ≡ to)
    × (r.in_reply_to ≡ none)
    × (r.transport_name ≡ config.connector_name)
    × (r.content ≡ some jom.content)
Fallback config env reply_to jom s _ _ (res, t) =
    (res
      ≡ ok (
          some (
            error_response
              (message_not_found ("Inbound message with id " <> (reply_to <> " not found"))))))
    × (t.published ≡ s.published)

module _ (config : JunebugMessageApiConfig) (env : Environment) (now stamp : ℕ)
    (id body reply_to : String) (jom : JunebugOutboundMessage) (s : JunebugMessageApi)
    (decoded : decode_request config env body ≡ ok jom) (asked : jom.reply_to ≡ some reply_to)
    (plain : (shared_vumi_fields jom).session_event ≡ none) where
  build_outbound_lem :
      (found : Option Message)
      → (Junebug.fetch_inbound now reply_to s.state_cache).0 ≡ found
      → build_outbound config env now id jom s.state_cache ≡ (
        build_reply config env now id reply_to jom found,
        (Junebug.fetch_inbound now reply_to s.state_cache).1,
      )
  unfolding build_outbound
  build_outbound_lem found h =
      rw (asked, build_outbound)
        (ap
          (λ f. (
            build_reply config env now id reply_to jom f,
            (Junebug.fetch_inbound now reply_to s.state_cache).1,
          ))
          h)

  -- The call with what the search for the message gives.
  by_search :
      (found : Option Message)
      → (Junebug.fetch_inbound now reply_to s.state_cache).0 ≡ found
      → http_send_message config env in_time now stamp id body s
        ≡ send_built config env in_time now stamp jom
            (
              build_reply config env now id reply_to jom found,
              (Junebug.fetch_inbound now reply_to s.state_cache).1,
            )
            s
  unfolding http_send_message send_message
  by_search found h =
      let e : build_outbound config env now id jom s.state_cache ≡ (
        build_reply config env now id reply_to jom found,
        (Junebug.fetch_inbound now reply_to s.state_cache).1,
      ) =
        build_outbound_lem found h in
      rw (decoded, http_send_message) (ap (λ b. send_built config env in_time now stamp jom b s) e)

  plain_reply :
      (m : Message)
      → (shared_vumi_fields jom).continue_session ≡ none
      → reply_to_vumi env.keep now id m jom
        ≡ reply m now id
            (some jom.content)
            resume
            (Kwarg.helper_metadata (shared_vumi_fields jom).helper_metadata ∷ [])
  unfolding reply_to_vumi
  plain_reply m ends = rw (plain, ends, reply_to_vumi) refl

  pub replied :
      (m : Message)
      → (shared_vumi_fields jom).continue_session ≡ none
      → (r : Message) × (reply_to_vumi env.keep now id m jom ≡ ok r) × RepliesTo m jom r
  unfolding reply
  replied m ends = (
    _,
    plain_reply m ends,
    record {
      to_addr = refl;
      from_addr = refl;
      transport_name = refl;
      group = refl;
      in_reply_to = refl;
      content = refl;
      session_event = refl;
    },
  )

  refused :
      (m : Message) (v : Value)
      → (shared_vumi_fields jom).continue_session ≡ some v
      → reply_to_vumi env.keep now id m jom ≡ err type_error
  unfolding reply_to_vumi reply
  refused m v ends = rw (plain, ends, reply_to_vumi) refl

  -- What is published and answered for a message.
  pub submitted :
      (found : Option Message) (r : Message)
      → (Junebug.fetch_inbound now reply_to s.state_cache).0 ≡ found
      → build_reply config env now id reply_to jom found ≡ ok r
      → ((http_send_message config env in_time now stamp id body s).0
          ≡ ok (
              some (
                response "message submitted"
                  (junebug_inbound_from_msg env.show_time r config.connector_name)
                  201)))
        × ((http_send_message config env in_time now stamp id body s).1.published
            ≡ s.published ++ (r ∷ []))
  unfolding send_built send_outbound publish
  submitted found r h built =
      let e = by_search found h in (rw (e, built, send_built) refl, rw (e, built, send_built) refl)

  failed :
      (found : Option Message) (e : Error)
      → (Junebug.fetch_inbound now reply_to s.state_cache).0 ≡ found
      → build_reply config env now id reply_to jom found ≡ err e
      → ((http_send_message config env in_time now stamp id body s).0 ≡ caught e)
        × ((http_send_message config env in_time now stamp id body s).1.published ≡ s.published)
  unfolding send_built
  failed found e h built =
      let p = by_search found h in (rw (p, built, send_built) refl, rw (p, built, send_built) refl)

  -- If the message that a request replies to is in the cache and the channel data has a value for
  -- `continue_session` and none for `session_event`, the request raises `TypeError`, which is no
  -- `ApiError`, and publishes nothing.
  pub http_send_message_continue_session :
      (m : Message) (v : Value)
      → (Junebug.fetch_inbound now reply_to s.state_cache).0 ≡ some m
      → (shared_vumi_fields jom).continue_session ≡ some v
      → ((http_send_message config env in_time now stamp id body s).0 ≡ err type_error)
        × ((http_send_message config env in_time now stamp id body s).1.published ≡ s.published)
  unfolding build_reply is_api_error
  http_send_message_continue_session m v h ends = failed (some m) type_error h (refused m v ends)

  abbrev expired_message : Message
  expired_message =
      record (new_message now id (text_of (λ v. "") (opt_str jom.to))
        (text_of (λ v. "") (opt_str jom.from_addr)) config.connector_name config.transport_type) {
          group = jom.group;
          content = some jom.content;
          session_event = none_;
          helper_metadata = (shared_vumi_fields jom).helper_metadata;
        }

  plain_message :
      to_vumi now id config.connector_name config.transport_type jom ≡ ok expired_message
  unfolding to_vumi
  plain_message = rw (plain, to_vumi) refl

  fall_through :
      (to : String)
      → jom.to ≡ some to
      → config.allow_expired_replies ≡ true
      → build_reply config env now id reply_to jom none
        ≡ to_vumi now id config.connector_name config.transport_type jom
  unfolding build_reply
  fall_through to t a = ground arith

  -- `build_outbound` falls through to `to_vumi`.
  direct :
      (to : String)
      → jom.to ≡ some to
      → config.allow_expired_replies ≡ true
      → (r : Message) × (build_reply config env now id reply_to jom none ≡ ok r)
        × (r.to_addr ≡ to)
        × (r.in_reply_to ≡ none)
        × (r.transport_name ≡ config.connector_name)
        × (r.content ≡ some jom.content)
  unfolding build_reply to_vumi new_message text_of
  direct to t a = (
    expired_message,
    fall_through to t a ∙ plain_message,
    ap (λ a. text_of (λ v. "") (opt_str a)) t,
    refl,
    refl,
    refl,
  )

  not_found :
      (to : Option String) (b : Bool)
      → jom.to ≡ to
      → config.allow_expired_replies ≡ b
      → (to ≡ none) ⊎ (b ≡ false)
      → build_reply config env now id reply_to jom none
        ≡ err (message_not_found ("Inbound message with id " <> (reply_to <> " not found")))
  unfolding build_reply
  not_found to b t a h = ground arith

  fallback :
      (Junebug.fetch_inbound now reply_to s.state_cache).0 ≡ none
      → (to : Option String) (b : Bool) → jom.to ≡ to
      → config.allow_expired_replies ≡ b
      → Fallback config env reply_to jom s to b
          (http_send_message config env in_time now stamp id body s)
  unfolding is_api_error
  fallback h (some to) true t a =
      let (r, built, p, q, u, v) = direct to t a in
      let (res, published) = submitted none r h built in (r, res, published, p, q, u, v)
  fallback h none b t a = failed none _ h (not_found none b t a (inl refl))
  fallback h (some to) false t a = failed none _ h (not_found (some to) false t a (inr refl))

  -- A reply to a message that is not in the cache, with no `session_event` in the channel data: with
  -- an address, and if expired replies are allowed, a message that is no reply is published to that
  -- address through the configured connector, with the text of the request; else nothing is
  -- published, and the response is the error that the message is not found.
  pub http_send_message_expired :
      (Junebug.fetch_inbound now reply_to s.state_cache).0 ≡ none
      → Fallback config env reply_to jom s jom.to config.allow_expired_replies
          (http_send_message config env in_time now stamp id body s)
  http_send_message_expired h = fallback h jom.to config.allow_expired_replies refl refl
