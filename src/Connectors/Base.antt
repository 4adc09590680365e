-- ===== src/Connectors/Base.antt =====
-- `BaseConnector`, its two subclasses and `Publisher` of src/vumi2/connectors.py. A handler is a
-- name; of a consumer, the queue and the handler are kept here. What `basic_publish` sends is a
-- routing key and a message; the exchange `vumi` is of the type `direct`, in which every queue is
-- bound to its own name (`Consumer.start`).
use vumi.Prelude.{
  String, ◌<>◌, List, [], ◌∷◌, ◌++◌, map, none, some, Result, ok, err, key_error, ◌==◌, string_eq,
  filter,
}
use vumi.Prelude.Dict
use vumi.Messages.{Message, Event}

-- `MessageType`
pub data MessageType : Type 0 where
  message : Message → MessageType
  event : Event → MessageType

pub record Publication : Type 0 where
  pub routing_key : String
  pub payload : MessageType

-- What a connector keeps of a `Consumer`.
pub record Subscription : Type 0 where
  pub queue_name : String
  pub callback : String

pub record BaseConnector : Type 0 where
  pub name : String
  -- `_consumers` and `_publishers`, by message type; of a `Publisher` the routing key.
  pub consumers : List (String × Subscription)
  pub publishers : List (String × String)

unfoldable pub new : (name : String) → BaseConnector
new name = record { name = name; consumers = []; publishers = [] }

-- `BaseConnector.routing_key`
unfoldable pub routing_key : (name message_type : String) → String
routing_key name message_type = name <> ("." <> message_type)

-- `_setup_consumer`
unfoldable pub setup_consumer : (message_type handler : String) → BaseConnector → BaseConnector
unfolding routing_key Dict.insert
setup_consumer message_type handler c = record c {
  consumers =
      Dict.insert message_type
        (record { queue_name = routing_key c.name message_type; callback = handler }) c.consumers;
}

-- `_setup_publisher`
unfoldable pub setup_publisher : (message_type : String) → BaseConnector → BaseConnector
unfolding routing_key Dict.insert
setup_publisher message_type c = record c {
  publishers = Dict.insert message_type (routing_key c.name message_type) c.publishers;
}

-- `_publish_message`, with what was published before.
unfoldable pub publish_message :
    (message_type : String)
    → MessageType
    → BaseConnector
    → List Publication
    → Result (List Publication)
unfolding Dict.lookup
publish_message message_type payload c published = elim (Dict.lookup message_type c.publishers) [
  | none ↦ err key_error
  | some key ↦ ok (published ++ (record { routing_key = key; payload = payload } ∷ []))
]

-- `ReceiveInboundConnector.setup`
unfoldable pub setup_receive_inbound : (name inbound_handler event_handler : String) → BaseConnector
unfolding new setup_publisher setup_consumer
setup_receive_inbound name inbound_handler event_handler =
    setup_consumer "event" event_handler
      (setup_consumer "inbound" inbound_handler (setup_publisher "outbound" (new name)))

-- `ReceiveOutboundConnector.setup`
unfoldable pub setup_receive_outbound : (name outbound_handler : String) → BaseConnector
unfolding new setup_publisher setup_consumer
setup_receive_outbound name outbound_handler =
    setup_consumer "outbound" outbound_handler
      (setup_publisher "event" (setup_publisher "inbound" (new name)))

unfoldable pub publish_outbound :
    Message → BaseConnector → List Publication → Result (List Publication)
unfolding publish_message
publish_outbound m c published = publish_message "outbound" (message m) c published

unfoldable pub publish_inbound :
    Message → BaseConnector → List Publication → Result (List Publication)
unfolding publish_message
publish_inbound m c published = publish_message "inbound" (message m) c published

unfoldable pub publish_event : Event → BaseConnector → List Publication → Result (List Publication)
unfolding publish_message
publish_event e c published = publish_message "event" (event e) c published

-- The callbacks of the consumers whose queue a publication is routed to.
unfoldable pub receivers : List BaseConnector → Publication → List String
receivers [] p = []
receivers (c ∷ cs) p =
    map (λ (s : String × Subscription). s.1.callback)
      (filter (λ (s : String × Subscription). s.1.queue_name == p.routing_key) c.consumers)
    ++ receivers cs p
