-- ===== src/Smpp/Client/Acceptance.antt =====
-- `send_vumi_message` of `EsmeClient` (src/vumi2/transports/smpp/client.py): what the answers of
-- the server lead to.
use vumi.Prelude.{
  ℕ, String, true, false, ◌≡◌, refl, sym, ap, ◌∙◌, some, List, [], ◌∷◌, ◌++◌, Result, ok, err, ◌==◌,
  string_eq, nat_eq,
}
use mathlib.Core.List.{append-nil}
use vumi.Prelude.Dict
use vumi.Messages.{Message, Event, ack, nack}
use vumi.Smpp.Pdu.{PythonCodecs, SubmitSm}
use vumi.Smpp.Cache.{store_smpp_message_id}
use vumi.Smpp.Sequencers.{Sequencer}
use vumi.Smpp.Submit
use vumi.Smpp.Client.{
  Response, submit_sm, Client, event, SmppPdu, Answer, send_event, ack_event, nack_event, smpp_id,
  after_answer, send_pdus, send_vumi_message,
}
use vumi.Smpp.Client.Exchange.{exchange-answered, ack_event_lem, nack_event_lem}

module _ (py : PythonCodecs) (smpp : SmppPdu) (answer : SubmitSm → Answer) (now : ℕ)
    (event_id : String) where
  -- The answer is one to the PDU, of the right class.
  abbrev pub IsAnswer : SubmitSm → Type 0
  IsAnswer pdu =
      ((answer pdu).response.seq_num ≡ pdu.seq_num)
      × (smpp.is_instance (answer pdu).response (smpp.require_ack "SubmitSM") ≡ true)

  -- It accepts the PDU, under an id.
  abbrev pub Accepts : SubmitSm → String → Type 0
  Accepts pdu id =
      IsAnswer pdu
      × (((answer pdu).response.status == "ESME_ROK") ≡ true)
      × (smpp_id py smpp answer now event_id (answer pdu).response ≡ ok id)

  abbrev pub Refuses : SubmitSm → String → Type 0
  Refuses pdu reason =
      IsAnswer pdu
      × (((answer pdu).response.status == "ESME_ROK") ≡ false)
      × (smpp.description (answer pdu).response.status ≡ ok reason)

  -- PDUs with the ids that the server accepts them under.
  abbrev pub AllAccepted : List (SubmitSm × String) → Type 0
  AllAccepted [] = Unit
  AllAccepted ((pdu, id) ∷ rest) = Accepts pdu id × AllAccepted rest

  -- The client after these: each PDU is sent, and its id is stored for the message.
  abbrev pub accepted : Message → List (SubmitSm × String) → Client → Client
  accepted m [] c = c
  accepted m ((pdu, id) ∷ rest) c = accepted m rest (record c {
    smpp_cache =
        store_smpp_message_id (answer pdu).now (answer pdu).stamp m.message_id id c.smpp_cache;
    responses =
        Dict.erase pdu.seq_num (Dict.insert pdu.seq_num (smpp.require_ack "SubmitSM") c.responses);
    sent = c.sent ++ (submit_sm pdu ∷ []);
  })

  abbrev pub pdus_of : List (SubmitSm × String) → List SubmitSm
  pdus_of [] = []
  pdus_of ((pdu, id) ∷ rest) = pdu ∷ pdus_of rest

  after_answer_ok :
      (m : Message) (a : Answer) (r : Response) (next : Client → Result (Unit {0}) × Client)
      (c : Client) (id : String)
      → (r.status == "ESME_ROK") ≡ true
      → smpp_id py smpp answer now event_id r ≡ ok id
      → after_answer py smpp answer now event_id m a (ok r) next c
        ≡ next (record c {
          smpp_cache = store_smpp_message_id a.now a.stamp m.message_id id c.smpp_cache;
        })
  unfolding after_answer
  after_answer_ok m a r next c id good known = rw (good, after_answer, known) refl

  after_answer_refused :
      (m : Message) (a : Answer) (r : Response) (next : Client → Result (Unit {0}) × Client)
      (c : Client)
      → (r.status == "ESME_ROK") ≡ false
      → after_answer py smpp answer now event_id m a (ok r) next c
        ≡ send_event py smpp answer now event_id (nack_event py smpp answer now event_id m r) c
  unfolding after_answer
  after_answer_refused m a r next c bad = rw (bad, after_answer) refl

  abbrev pub exchanged : SubmitSm → Client → Client
  exchanged pdu c = record c {
    responses =
        Dict.erase pdu.seq_num (Dict.insert pdu.seq_num (smpp.require_ack "SubmitSM") c.responses);
    sent = c.sent ++ (submit_sm pdu ∷ []);
  }

  send_pdus_answered :
      (m : Message) (pdu : SubmitSm) (pdus : List SubmitSm) (c : Client)
      → IsAnswer pdu
      → send_pdus py smpp answer now event_id m (pdu ∷ pdus) c
        ≡ after_answer py smpp answer now event_id m
            (answer pdu)
            (ok (answer pdu).response)
            (send_pdus py smpp answer now event_id m pdus)
            (exchanged pdu c)
  unfolding send_pdus
  send_pdus_answered m pdu pdus c (same, right) =
      ap
        (λ (x : Result Response × Client).
          after_answer py smpp answer now event_id m (answer pdu) x.0
            (send_pdus py smpp answer now event_id m pdus) x.1)
        (exchange-answered smpp "SubmitSM" pdu.seq_num (submit_sm pdu) (answer pdu).response c same
          right)

  send_pdus-accepted :
      (m : Message) (before : List (SubmitSm × String)) (after : List SubmitSm) (c : Client)
      → AllAccepted before
      → send_pdus py smpp answer now event_id m (pdus_of before ++ after) c
        ≡ send_pdus py smpp answer now event_id m after (accepted m before c)
  send_pdus-accepted m [] after c hs = refl
  send_pdus-accepted m ((pdu, id) ∷ rest) after c ((is_answer, good, known), hs) =
      send_pdus_answered m pdu (pdus_of rest ++ after) c is_answer
      ∙ after_answer_ok m (answer pdu) (answer pdu).response _ (exchanged pdu c) id good known
      ∙ send_pdus-accepted m rest after _ hs

  abbrev pub publish : Event → Client → Client
  publish e c = record c { published = c.published ++ (event e ∷ []) }

  send_vumi_message_lem :
      (config : Submit.Config) (m : Message) (pdus : List SubmitSm) (s : Sequencer) (c : Client)
      → Submit.handle_outbound_message py config m c.sequencer ≡ (ok pdus, s)
      → send_vumi_message py smpp answer now event_id config m c
        ≡ send_pdus py smpp answer now event_id m pdus (record c { sequencer = s })
  unfolding send_vumi_message
  send_vumi_message_lem config m pdus s c made =
      ap
        (λ (x : Result (List SubmitSm) × Sequencer). elim x.0 [
          | err e ↦ (err e, record c { sequencer = x.1 })
          | ok ps ↦ send_pdus py smpp answer now event_id m ps (record c { sequencer = x.1 })
        ])
        made

  send_event_ok :
      (r : Result Event) (e : Event) (c : Client)
      → r ≡ ok e
      → send_event py smpp answer now event_id r c ≡ (ok tt, publish e c)
  unfolding send_event
  send_event_ok r e c made =
      ap (λ (x : Result Event). send_event py smpp answer now event_id x c) made

  send_pdus_end :
      (m : Message) (c : Client)
      → send_pdus py smpp answer now event_id m [] c
        ≡ send_event py smpp answer now event_id (ack_event py smpp answer now event_id m) c
  unfolding send_pdus
  send_pdus_end m c = refl

  -- Where the server accepts every PDU of a message, with answers of the right number and class,
  -- each is sent and its id stored for the message, and then one event is published: an `ack` of
  -- the message.
  pub send_vumi_message-ack :
      (config : Submit.Config) (m : Message) (before : List (SubmitSm × String)) (s : Sequencer)
      (c : Client)
      → Submit.handle_outbound_message py config m c.sequencer ≡ (ok (pdus_of before), s)
      → AllAccepted before
      → (e : Event) × (send_vumi_message py smpp answer now event_id config m c
          ≡ (ok tt, publish e (accepted m before (record c { sequencer = s }))))
        × (e.user_message_id ≡ m.message_id)
        × (e.event_type ≡ ack)
  send_vumi_message-ack config m before s c made hs =
      let (e, acked, on, kind) = ack_event_lem py smpp answer now event_id m in
      (
        e,
        send_vumi_message_lem config m (pdus_of before) s c made
            ∙ ap
                (λ (ps : List SubmitSm).
                  send_pdus py smpp answer now event_id m ps (record c { sequencer = s }))
                (sym (append-nil (pdus_of before)))
            ∙ send_pdus-accepted m before [] (record c { sequencer = s }) hs
            ∙ send_pdus_end m (accepted m before (record c { sequencer = s }))
            ∙ send_event_ok _ e (accepted m before (record c { sequencer = s })) acked,
        on.0,
        kind,
      )

  -- Where the server refuses a PDU behind some that it accepts, with answers of the right number
  -- and class, those are sent and their ids stored, that PDU is sent and none behind it, and one
  -- event is published: a `nack` of the message, with the description of the status as its
  -- reason.
  pub send_vumi_message-nack :
      (config : Submit.Config) (m : Message) (before : List (SubmitSm × String)) (pdu : SubmitSm)
      (after : List SubmitSm) (reason : String) (s : Sequencer) (c : Client)
      → Submit.handle_outbound_message py config m c.sequencer
        ≡ (ok (pdus_of before ++ (pdu ∷ after)), s)
      → AllAccepted before
      → Refuses pdu reason
      → (e : Event) × (send_vumi_message py smpp answer now event_id config m c
          ≡ (ok tt, publish e (exchanged pdu (accepted m before (record c { sequencer = s })))))
        × (e.user_message_id ≡ m.message_id)
        × (e.event_type ≡ nack)
        × (e.nack_reason ≡ some reason)
  send_vumi_message-nack config m before pdu after reason s c made hs (is_answer, bad, known) =
      let (e, nacked, on, kind, why) =
        nack_event_lem py smpp answer now event_id m (answer pdu).response reason known in
      let c' = accepted m before (record c { sequencer = s }) in
      (
        e,
        send_vumi_message_lem config m (pdus_of before ++ (pdu ∷ after)) s c made
            ∙ send_pdus-accepted m before (pdu ∷ after) (record c { sequencer = s }) hs
            ∙ send_pdus_answered m pdu after c' is_answer
            ∙ after_answer_refused m (answer pdu) (answer pdu).response _ (exchanged pdu c') bad
            ∙ send_event_ok _ e (exchanged pdu c') nacked,
        on.0,
        kind,
        why,
      )
