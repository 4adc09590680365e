-- ===== src/Turn.antt =====
-- The messages of src/vumi2/applications/turn_channels_api/messages.py. A JSON object is a value
-- of `Fields`. A request's values have no checked type, so `TurnOutboundMessage` holds them as
-- they come; where one becomes a text of a `Message` it is the text that `str` makes of it.
pub mod Outbound
pub mod Worker
use vumi.Prelude.{
  ℕ, ◌/◌, String, ◌<>◌, Bool, true, false, not, ◌&&◌, Option, none, some, List, [], ◌∷◌, ◌==◌,
  string_eq, decimal, is_in, Error, api_usage_error, key_error, type_error, attribute_error,
  value_error, validation_error, Result, ok, err, ◌>>=◌, raise_if, if◌then◌else◌,
}
use vumi.Messages.Value.{
  opt_str, Fields, Value, Items, end, field, obj, arr, str, num, bool, null, get, remove,
}
use vumi.Messages.{
  Message, Event, Session, TransportType, Kwarg, EventType, DeliveryStatus, ack, nack,
  delivery_report, pending, failed, delivered, none_, new, resume, close, new_message, reply,
}

-- `str(int(timestamp.timestamp()))`
abbrev pub unix_time : ℕ → Value
unix_time timestamp = str (decimal (timestamp / 1000000))

unfoldable pub turn_inbound_from_msg : Message → Value
turn_inbound_from_msg message =
    let profile = field "profile" (obj (field "name" (str message.from_addr) end)) end in
    let content = field "body" (opt_str message.content) end in
    let rest =
      field "from" (str message.from_addr) (
        field "id" (str message.message_id)
          (field "timestamp" (unix_time message.timestamp) end)) in
    obj (
      field "contact" (obj (field "id" (str message.from_addr) profile))
        (field "message" (obj (field "type" (str "text") (field "text" (obj content) rest))) end))

unfoldable pub turn_outbound_from_msg : Message → Value
turn_outbound_from_msg message = obj (
    field "messages" (arr (Items.cons (obj (field "id" (str message.message_id) end)) Items.nil))
      end)

-- The `match` on the event type, and the table of delivery statuses in it.
unfoldable pub event_status : EventType → Option DeliveryStatus → Value
event_status delivery_report (some pending) = str "sent"
event_status delivery_report (some failed) = str "failed"
event_status delivery_report (some delivered) = str "delivered"
event_status delivery_report none = null
event_status nack _ = str "failed"
event_status ack _ = str "sent"

unfoldable pub turn_event_from_ev : Event → (outbound : Message) → Value
unfolding event_status
turn_event_from_ev event outbound =
    let rest =
      field "status" (event_status event.event_type event.delivery_status)
        (field "recipient_id" (str outbound.to_addr) end) in
    let ev =
      field "id" (str event.user_message_id) (field "timestamp" (unix_time event.timestamp) rest) in
    obj (field "status" (obj ev) end)
