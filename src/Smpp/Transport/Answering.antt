-- ===== src/Smpp/Transport/Answering.antt =====
-- An outbound message from an application to the server and the event back, through the connectors
-- of src/vumi2/connectors.py, src/vumi2/transports/smpp/smpp.py and its client.py.
use mathlib.Core.List.{append-nil, append_assoc}
use vumi.Prelude.{
  ℕ, ◌≡◌, refl, sym, ap, ◌∙◌, String, List, [], ◌∷◌, ◌++◌, map, Result, ok, some, string_eq,
}
use vumi.Prelude.Dict.{NodupKeys, lookup}
use vumi.Messages.{Message, Event, ack}
use vumi.Connectors.Base.{
  Publication, setup_receive_inbound, setup_receive_outbound, publish_outbound,
}
use vumi.Connectors.Base
use vumi.Connectors.Delivering.{Handlers, published_as, system, receivers-publish}
use vumi.Smpp.Pdu.{PythonCodecs, SubmitSm}
use vumi.Smpp.Sequencers.{Sequencer}
use vumi.Smpp.Submit
use vumi.Smpp.Client.{Published, submit_sm, event, Client, SmppPdu, Answer}
use vumi.Smpp.Client.Acceptance.{AllAccepted, accepted, pdus_of, send_vumi_message-ack}
use vumi.Smpp.Transport.{handle_all, handle_outbound, deliveries, delivery, handle_all-delivered}

module _ (py : PythonCodecs) (smpp : SmppPdu) (answer : SubmitSm → Answer) (now : ℕ)
    (event_id : String) where
  accepted-published :
      (m : Message) (before : List (SubmitSm × String)) (c : Client)
      → (accepted py smpp answer now event_id m before c).published ≡ c.published
  accepted-published m [] c = refl
  accepted-published m ((pdu, id) ∷ rest) c = accepted-published m rest _

  -- What the transport hands over to the connector for one message.
  abbrev pub handed_over : Submit.Config → Message → Client → List Published
  handed_over config m c = (handle_outbound py smpp answer now event_id config m c).1.published

  accepted-sent :
      (m : Message) (before : List (SubmitSm × String)) (c : Client)
      → (accepted py smpp answer now event_id m before c).sent
        ≡ c.sent ++ map submit_sm (pdus_of py smpp answer now event_id before)
  accepted-sent m [] c = sym (append-nil c.sent)
  accepted-sent m ((pdu, id) ∷ rest) c =
      accepted-sent m rest _
      ∙ append_assoc c.sent (submit_sm pdu ∷ [])
          (map submit_sm (pdus_of py smpp answer now event_id rest))

  -- An application publishes a message on its connector. The outbound handler of the transport
  -- whose connector has the same name gets it, and nobody else. Where the server accepts every PDU
  -- of the message, with answers of the right number and class, exactly those PDUs are sent, in
  -- order, and what the transport publishes reaches that application alone: one event, at its
  -- `event_handler`, which is an `ack` of the message. Nothing has been handed over before, and
  -- no two applications and no two transports share a connector name.
  pub outbound_acknowledged :
      (apps : List (String × Handlers)) (ts : List (String × String)) (name : String) (h : Handlers)
      (k : String) (config : Submit.Config) (m : Message) (before : List (SubmitSm × String))
      (s : Sequencer) (c : Client)
      → NodupKeys apps
      → NodupKeys ts
      → lookup name apps ≡ some h
      → lookup name ts ≡ some k
      → c.published ≡ []
      → Submit.handle_outbound_message py config m c.sequencer
        ≡ (ok (pdus_of py smpp answer now event_id before), s)
      → AllAccepted py smpp answer now event_id before
      → (out : List Publication) × (back : List Publication) × (e : Event) × (publish_outbound m
            (setup_receive_inbound name h.inbound_handler h.event_handler)
            []
          ≡ ok out)
        × (deliveries (system apps ts) out ≡ (k, Base.message m) ∷ [])
        × ((handle_outbound py smpp answer now event_id config m c).1.sent
            ≡ c.sent ++ map submit_sm (pdus_of py smpp answer now event_id before))
        × (handle_all name (setup_receive_outbound name k) (handed_over config m c) [] ≡ ok back)
        × (deliveries (system apps ts) back ≡ (h.event_handler, Base.event e) ∷ [])
        × (e.user_message_id ≡ m.message_id)
        × (e.event_type ≡ ack)
  outbound_acknowledged apps ts name h k config m before s c ua ut ha ht none_before made hs =
      let (e, run, on, kind) =
        send_vumi_message-ack py smpp answer now event_id config m before s c made hs in
      let c' : Client = record c { sequencer = s } in
      let over : handed_over config m c ≡ event e ∷ [] =
        ap (λ (r : Result (Unit {0}) × Client). r.1.published) run
        ∙ ap (λ ps. ps ++ (event e ∷ [])) (accepted-published m before c' ∙ none_before) in
      let sent : (handle_outbound py smpp answer now event_id config m c).1.sent
          ≡ c.sent ++ map submit_sm (pdus_of py smpp answer now event_id before) =
        ap (λ (r : Result (Unit {0}) × Client). r.1.sent) run ∙ accepted-sent m before c' in
      let (back, (published, got)) =
        handle_all-delivered apps ts name h k (handed_over config m c) ua ut ha ht in
      let (out, received) = (receivers-publish apps ts name h k m e [] ua ut ha ht).1.1 in
      (
        published_as name "outbound" (Base.message m) ∷ [],
        back,
        e,
        out,
        ap (λ ks. map (λ j. (j, Base.message m)) ks ++ []) received,
        sent,
        published,
        got ∙ ap (map (delivery name h)) over,
        on,
        kind,
      )
