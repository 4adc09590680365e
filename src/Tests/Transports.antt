-- ===== src/Tests/Transports.antt =====
-- The theorems on src/vumi2/transports/smpp/smpp.py and `ConnectorCollection` of
-- src/vumi2/connectors.py at concrete inputs.
use text.Mathlib.TextEquality.{eq_iff}
use vumi.Prelude.{String, true, ◌≡◌, ◌≢◌, refl, sym, none, some, List, [], ◌∷◌, ok, All, arith}
use vumi.Prelude.Dict.{lookup}
use vumi.Messages.{Message, Event, sms, ack, new_message}
use vumi.Messages.Value.{end}
use vumi.Smpp.Client.{Published, message, event}
use vumi.Smpp.Transport.{handle_all, deliveries, handle_all-delivered}
use vumi.Connectors.Base.{Publication, BaseConnector, setup_receive_outbound}
use vumi.Connectors.Base
use vumi.Connectors.Delivering.{Handlers, system}
use vumi.Connectors.Collection.{
  ConnectorCollection, new, Reachable, fresh, step, adds, publishes, closes, consumer_closes,
  consumers_closed, publisher_closes, publishers_closed, closed, add,
}
use vumi.Connectors.Ordering.{handlers_publish}

abbrev apps : List (String × Handlers)
apps =
    ("smpp", record { inbound_handler = "on_message"; event_handler = "on_event" })
    ∷ ("ussd", record { inbound_handler = "other"; event_handler = "other" })
    ∷ []

abbrev transports : List (String × String)
transports = ("ussd", "send_ussd") ∷ ("smpp", "send_sms") ∷ []

abbrev delivered : Event
delivered = record {
  user_message_id = "m1";
  event_type = ack;
  message_version = "20110921";
  message_type = "event";
  timestamp = 3;
  routing_metadata = end;
  helper_metadata = end;
  transport_metadata = some end;
  event_id = "e1";
  sent_message_id = some "m1";
  nack_reason = none;
  delivery_status = none;
}

abbrev hello : Message
hello = new_message 7 "m2" "+1" "+2" "?" sms

abbrev handed_over : List Published
handed_over = event delivered ∷ message hello ∷ []

differ : ◌≢◌ {A = String} "smpp" "ussd"
differ p = ground (arith, eq_iff "smpp" "ussd", p)

handle_all-delivered_example :
    (published : List Publication) × ((handle_all "smpp"
          (setup_receive_outbound "smpp" "send_sms")
          handed_over
          []
        ≡ ok published)
      × (deliveries (system apps transports) published
          ≡ ("on_event", Base.event delivered)
            ∷ ("on_message", Base.message (record hello { transport_name = "smpp" }))
            ∷ []))
unfolding lookup
handle_all-delivered_example =
    handle_all-delivered apps transports "smpp"
      (record { inbound_handler = "on_message"; event_handler = "on_event" }) "send_sms" handed_over
      ((λ p. differ (λ i. sym p i), tt), (tt, tt)) ((λ p. differ (λ i. p i), tt), (tt, tt)) refl
      refl

-- A transport closes while its handler is at work, and the handler publishes.
abbrev connector : BaseConnector
connector = setup_receive_outbound "smpp" "send_sms"

run : (c : ConnectorCollection) × (Reachable c × (c.phase ≡ closed))
unfolding new add setup_receive_outbound
run = (
  _,
  (
    step
        (step
          (step
            (step
              (step
                (step (step (step fresh (adds connector refl)) (closes refl))
                  (publishes "smpp.outbound" "smpp.event" refl refl))
                (consumer_closes [] "smpp.outbound" [] refl refl))
              (consumers_closed refl refl))
            (publisher_closes [] "smpp.inbound" ("smpp.event" ∷ []) refl refl))
          (publisher_closes [] "smpp.event" [] refl refl))
        (publishers_closed refl refl),
    refl,
  ),
)

handlers_publish_example :
    All (λ b. b ≡ true) run.0.published
    × (run.0.phase ≡ closed → (run.0.open_consumers ≡ []) × (run.0.open_publishers ≡ []))
handlers_publish_example = handlers_publish run.0 run.1.0
