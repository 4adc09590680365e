-- ===== src/Turn/Worker/Events.antt =====
-- The events that `TurnChannelsApi.handle_event`
-- (src/vumi2/applications/turn_channels_api/turn_channels_api.py) sends on.
use vumi.Prelude.{
  ℕ, ◌/◌, decimal, ◌<>◌, Option, String, ◌≡◌, refl, none, some, [], ◌∷◌, ok, string_eq, arith,
}
use vumi.Messages.{
  Message, Event, EventType, DeliveryStatus, ack, nack, delivery_report, pending, failed, delivered,
  new_event, check_event_type,
}
use vumi.Messages.Value.{Value, obj, field, str, null, end}
use vumi.Cache.MessageCache
use vumi.Cache.MessageCache.{MemoryMessageCache}
use vumi.Smpp.Cache.{SmppCache}
use vumi.Smpp.Reports
use vumi.Api.{Post, Reply, join_url}
use vumi.Turn.Worker.{TurnChannelsApiConfig, TurnChannelsApi, fetch_sent, handle_event}

-- The status that Turn is told.
abbrev pub status_text : EventType → Option DeliveryStatus → Value
status_text ack _ = str "sent"
status_text nack _ = str "failed"
status_text delivery_report none = null
status_text delivery_report (some pending) = str "sent"
status_text delivery_report (some failed) = str "failed"
status_text delivery_report (some delivered) = str "delivered"

-- The request that tells Turn about an event on a message.
abbrev pub status_post : TurnChannelsApiConfig → Event → Message → Post
status_post config event outbound = record {
  url = join_url config.turn_api_url "/statuses";
  json = obj (
      field "status"
        (obj (
          field "id" (str event.user_message_id) (
            field "timestamp" (str (decimal (event.timestamp / 1000000))) (
              field "status" (status_text event.event_type event.delivery_status)
                (field "recipient_id" (str outbound.to_addr) end)))))
        end);
  headers = ("Authorization", "Bearer " <> config.auth_token) ∷ [];
}

-- One that names none, or one that is not there, is not.
handle_event-missing :
    (config : TurnChannelsApiConfig) (reply : Reply) (now : ℕ) (event : Event) (s : TurnChannelsApi)
    → (fetch_sent now event.sent_message_id s.message_cache).0 ≡ none
    → ((handle_event config reply now event s).0 ≡ ok tt)
      × ((handle_event config reply now event s).1.posts ≡ s.posts)
unfolding handle_event
handle_event-missing config reply now event s h = rw (h, handle_event) (refl, refl)

fetch_none : (now : ℕ) (c : MemoryMessageCache) → (fetch_sent now none c).0 ≡ none
unfolding fetch_sent
fetch_none now c = refl

created_unsent :
    (reports : Reports.Config) (now : ℕ) (event_id smpp_message_id smpp_status : String)
    (c : SmppCache) (e : Event)
    → (Reports.create_event reports now event_id smpp_message_id smpp_status c).0 ≡ ok (some e)
    → e.sent_message_id ≡ none
unfolding Reports.create_event Reports.create_known new_event check_event_type
created_unsent reports now event_id smpp_message_id smpp_status c e h = ground arith

-- The events that `DeliveryReportProcesser` makes of delivery reports name no sent message, so none
-- of them is ever posted.
pub handle_event_of_report :
    (config : TurnChannelsApiConfig) (reply : Reply) (reports : Reports.Config) (now later : ℕ)
    (event_id smpp_message_id smpp_status : String) (c : SmppCache) (e : Event)
    (s : TurnChannelsApi)
    → (Reports.create_event reports now event_id smpp_message_id smpp_status c).0 ≡ ok (some e)
    → ((handle_event config reply later e s).0 ≡ ok tt)
      × ((handle_event config reply later e s).1.posts ≡ s.posts)
handle_event_of_report config reply reports now later event_id smpp_message_id smpp_status c e s h =
    handle_event-missing config reply later e s (
      rw (created_unsent reports now event_id smpp_message_id smpp_status c e h)
        (fetch_none later s.message_cache))
