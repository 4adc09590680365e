-- ===== src/Junebug/Worker/Posting.antt =====
-- What `JunebugMessageApi.handle_event` posts
-- (src/vumi2/applications/junebug_message_api/junebug_message_api.py).
use vumi.Prelude.{ℕ, ◌<>◌, String, ◌≡◌, refl, sym, ap, Option, none, some, List, [], ◌∷◌, ◌++◌}
use mathlib.Core.List.{append-nil}
use vumi.Api.{Post, Reply}
use vumi.Messages.{
  Event, EventType, ack, nack, delivery_report, DeliveryStatus, pending, failed, delivered,
}
use vumi.Messages.Value.{Value, Fields, end, field, obj, str, null, opt_str}
use vumi.Junebug
use vumi.Junebug.{EventHttpInfo, MemoryJunebugStateCache}
use vumi.Junebug.Outbound.{junebug_event_from_ev, event_type_of, event_details_of}
use vumi.Junebug.Worker.{
  JunebugMessageApiConfig, JunebugMessageApi, Environment, event_address, event_post, token_header,
  send_event, handle_event,
}

-- The header with a token, if there is one.
abbrev pub authorization : Option String → List (String × String)
authorization none = []
authorization (some token) = ("Authorization", "Token " <> token) ∷ []

-- The type of an event in the API, and why a message was rejected.
abbrev pub type_text : EventType → Option DeliveryStatus → Value
type_text ack _ = str "submitted"
type_text nack _ = str "rejected"
type_text delivery_report none = null
type_text delivery_report (some pending) = str "delivery_pending"
type_text delivery_report (some failed) = str "delivery_failed"
type_text delivery_report (some delivered) = str "delivery_succeeded"

abbrev pub reason_of : Event → Fields
reason_of event = elim event.event_type [
  | nack ↦ field "reason" (opt_str event.nack_reason) end
  | _ ↦ end
]

-- The request for an event: to a URL, with a token.
abbrev pub sent_event : JunebugMessageApiConfig → Environment → Event → EventHttpInfo → List Post
sent_event config env event a =
    record {
      url = a.url;
      json = obj (
          field "message_id" (str event.user_message_id) (
            field "channel_id" (str config.connector_name) (
              field "timestamp" (str (env.show_time event.timestamp)) (
                field "event_details" (obj (reason_of event))
                  (field "event_type" (type_text event.event_type event.delivery_status) end)))));
      headers = authorization a.auth_token;
    }
    ∷ []

-- The requests for an event with an address, or with none: to the configured URL, if there is one.
abbrev pub event_posts :
    JunebugMessageApiConfig → Environment → Event → Option EventHttpInfo → List Post
event_posts config env event (some a) = sent_event config env event a
event_posts config env event none = elim config.default_event_url [
  | none ↦ []
  | some url ↦
      sent_event config env event
        (record { url = url; auth_token = config.default_event_auth_token })
]

token_header-eq : (token : Option String) → token_header token ≡ authorization token
token_header-eq none = refl
token_header-eq (some t) = refl

event_type_of-eq : (t : EventType) (d : Option DeliveryStatus) → event_type_of t d ≡ type_text t d
unfolding event_type_of
event_type_of-eq ack d = refl
event_type_of-eq nack d = refl
event_type_of-eq delivery_report none = refl
event_type_of-eq delivery_report (some pending) = refl
event_type_of-eq delivery_report (some failed) = refl
event_type_of-eq delivery_report (some delivered) = refl

event_details_of-eq :
    (event : Event) → event_details_of event.event_type event.nack_reason ≡ reason_of event
unfolding event_details_of
event_details_of-eq event = go event.event_type
  where
    go :
        (t : EventType)
        → event_details_of t event.nack_reason
          ≡ elim t [ nack ↦ field "reason" (opt_str event.nack_reason) end | _ ↦ end ]
    go ack = refl
    go nack = refl
    go delivery_report = refl

event_post-eq :
    (config : JunebugMessageApiConfig) (env : Environment) (event : Event) (a : EventHttpInfo)
    → event_post config env event a ∷ [] ≡ sent_event config env event a
unfolding junebug_event_from_ev
event_post-eq config env event a =
    rw
      (
        token_header-eq a.auth_token,
        event_type_of-eq event.event_type event.delivery_status,
        event_details_of-eq event,
      )
      refl

pub handle_event-posts :
    (config : JunebugMessageApiConfig) (env : Environment) (reply : Reply) (now : ℕ) (event : Event)
    (s : JunebugMessageApi)
    → (handle_event config env reply now event s).1.posts
      ≡ s.posts
        ++ event_posts config env event
            (Junebug.fetch_event_http_info now event.user_message_id s.state_cache).0
unfolding handle_event send_event
handle_event-posts config env reply now event s =
    let (found, c) = Junebug.fetch_event_http_info now event.user_message_id s.state_cache in
    go found (record s { state_cache = c })
  where
    sent :
        (a : EventHttpInfo) (t : JunebugMessageApi)
        → (send_event config env reply event (some a) t).1.posts
          ≡ t.posts ++ sent_event config env event a
    sent a t = ap (λ ps. t.posts ++ ps) (event_post-eq config env event a)

    by_default :
        (o : Option String) (t : JunebugMessageApi)
        → (send_event config env reply event
            (elim o [
              | none ↦ none
              | some url ↦ some (record { url = url; auth_token = config.default_event_auth_token })
            ])
            t).1.posts
          ≡ t.posts ++ elim o [
            | none ↦ []
            | some url ↦
                sent_event config env event
                  (record { url = url; auth_token = config.default_event_auth_token })
          ]
    by_default none t = sym (append-nil t.posts)
    by_default (some url) t = sent _ t

    go :
        (o : Option EventHttpInfo) (t : JunebugMessageApi)
        → (send_event config env reply event (event_address config o) t).1.posts
          ≡ t.posts ++ event_posts config env event o
    go (some a) t = sent a t
    go none t = by_default config.default_event_url t
