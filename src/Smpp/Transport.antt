-- ===== src/Smpp/Transport.antt =====
-- `SmppTransceiverTransport` of src/vumi2/transports/smpp/smpp.py: what the client hands over goes
-- out on the connector, and what the connector receives goes to the client.
pub mod Answering
pub mod Reporting
use mathlib.Core.List.{append-nil, append_assoc}
use vumi.Prelude.{
  ℕ, ◌≡◌, refl, sym, ap, ◌∙◌, String, List, [], ◌∷◌, ◌++◌, map, string_eq, inl, inr, some, Result,
  ok, ◌>>=◌,
}
use vumi.Messages.{Message}
use vumi.Connectors.Base.{
  MessageType, Publication, BaseConnector, setup_receive_outbound, publish_inbound, publish_event,
  publish_message, receivers,
}
use vumi.Prelude.Dict.{NodupKeys, lookup}
use vumi.Connectors.Pairing.{IsMessageType}
use vumi.Connectors.Delivering.{
  published_as, Handlers, handler, outbound_only, system, receivers-system,
}
use vumi.Connectors.Base
use vumi.Smpp.Pdu.{PythonCodecs, SubmitSm}
use vumi.Smpp.Submit
use vumi.Smpp.Client.{Published, message, event, Client, SmppPdu, Answer, send_vumi_message}

-- The body of the loop in `handle_inbound_message_or_event`.
unfoldable pub handle_inbound_message_or_event :
    (transport_name : String)
    → BaseConnector
    → Published
    → List Publication
    → Result (List Publication)
unfolding publish_inbound publish_event
handle_inbound_message_or_event transport_name connector (event e) published =
    publish_event e connector published
handle_inbound_message_or_event transport_name connector (message m) published =
    publish_inbound (record m { transport_name = transport_name }) connector published

-- The loop over the channel that the client writes to.
unfoldable pub handle_all :
    (transport_name : String)
    → BaseConnector
    → List Published
    → List Publication
    → Result (List Publication)
unfolding handle_inbound_message_or_event
handle_all transport_name connector [] published = ok published
handle_all transport_name connector (msg ∷ msgs) published =
    handle_inbound_message_or_event transport_name connector msg published >>= λ published'.
    handle_all transport_name connector msgs published'

-- `handle_outbound`
abbrev pub handle_outbound :
    PythonCodecs
    → SmppPdu
    → (SubmitSm → Answer)
    → (now : ℕ) (event_id : String) → Submit.Config
    → Message
    → Client
    → Result (Unit {0}) × Client
handle_outbound py smpp answer now event_id config m c =
    send_vumi_message py smpp answer now event_id config m c

-- What one message or event becomes.
abbrev pub publication : String → Published → Publication
publication name (event e) = published_as name "event" (Base.event e)
publication name (message m) =
    published_as name "inbound" (Base.message (record m { transport_name = name }))

handle_one :
    (name outbound_handler : String) (msg : Published) (before : List Publication)
    → handle_inbound_message_or_event name (setup_receive_outbound name outbound_handler) msg before
      ≡ ok (before ++ (publication name msg ∷ []))
unfolding handle_inbound_message_or_event publish_inbound publish_event publish_message
    setup_receive_outbound
handle_one name k (event e) before = refl
handle_one name k (message m) before = refl

pub handle_all-setup :
    (name outbound_handler : String) (msgs : List Published) (before : List Publication)
    → handle_all name (setup_receive_outbound name outbound_handler) msgs before
      ≡ ok (before ++ map (publication name) msgs)
unfolding handle_all
handle_all-setup name k [] before = ap ok (sym (append-nil before))
handle_all-setup name k (msg ∷ msgs) before =
    rw (handle_one name k msg before)
      (handle_all-setup name k msgs (before ++ (publication name msg ∷ [])))
    ∙ ap ok (append_assoc before (publication name msg ∷ []) (map (publication name) msgs))

-- Who gets publications, with what they get, in order.
abbrev pub deliveries : List BaseConnector → List Publication → List (String × MessageType)
deliveries cs [] = []
deliveries cs (p ∷ ps) = map (λ h. (h, p.payload)) (receivers cs p) ++ deliveries cs ps

-- What the application with these handlers is to get for one message or event of the client.
abbrev pub delivery : String → Handlers → Published → String × MessageType
delivery name h (event e) = (h.event_handler, Base.event e)
delivery name h (message m) = (h.inbound_handler, Base.message (record m { transport_name = name }))

-- Whatever the client of a transport hands over, the application whose connector has the
-- transport's name gets it all, and nobody else any of it, in the same order: events at its
-- `event_handler`, and messages at its `inbound_handler` with the name of the transport written
-- into them; where no two applications and no two transports share a connector name.
pub handle_all-delivered :
    (apps : List (String × Handlers)) (ts : List (String × String)) (name : String) (h : Handlers)
    (k : String) (msgs : List Published)
    → NodupKeys apps
    → NodupKeys ts
    → lookup name apps ≡ some h
    → lookup name ts ≡ some k
    → (published : List Publication) × ((handle_all name (setup_receive_outbound name k) msgs []
          ≡ ok published)
        × (deliveries (system apps ts) published ≡ map (delivery name h) msgs))
handle_all-delivered apps ts name h k msgs ua ut ha ht =
    (map (publication name) msgs, (handle_all-setup name k msgs [], all msgs))
  where
    get :
        (t : String) (p : MessageType)
        → IsMessageType t
        → receivers (system apps ts) (published_as name t p)
          ≡ handler t h ++ (outbound_only t k ++ [])
    get t p i = receivers-system apps ts name h k ua ut ha ht t p i

    all :
        (msgs : List Published)
        → deliveries (system apps ts) (map (publication name) msgs) ≡ map (delivery name h) msgs
    all [] = refl
    all (event e ∷ msgs) = rw (get "event" (Base.event e) (inr (inr refl)), all msgs) refl
    all (message m ∷ msgs) =
        rw (get "inbound" (Base.message (record m { transport_name = name })) (inl refl), all msgs)
          refl
