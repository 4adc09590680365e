-- ===== src/Smpp/Client/Sending.antt =====
-- `send_vumi_message` of `EsmeClient` (src/vumi2/transports/smpp/client.py): which event a message
-- gets.
use vumi.Prelude.{
  ℕ, String, false, ◌≡◌, refl, ◌∙◌, List, [], ◌∷◌, Result, ok, err, inl, inr, ◌==◌, string_eq,
  nat_eq, Bool-cases,
}
use vumi.Messages.{Message}
use vumi.Smpp.Pdu.{PythonCodecs, SubmitSm}
use vumi.Smpp.Cache.{store_smpp_message_id}
use vumi.Smpp.Sequencers.{Sequencer}
use vumi.Smpp.Submit
use vumi.Smpp.Client.{
  Response, submit_sm, Client, Published, SmppPdu, exchange, Answer, smpp_id, after_answer,
  send_pdus, send_vumi_message,
}
use vumi.Smpp.Client.Exchange.{
  exchange-published, OneEvent, ack_event_lem, send_event-OneEvent, nack_made,
}

module _ (py : PythonCodecs) (smpp : SmppPdu) (answer : SubmitSm → Answer) (now : ℕ)
    (event_id : String) where
  after_answer-OneEvent :
      (m : Message) (a : Answer) (r : Result Response) (next : Client → Result (Unit {0}) × Client)
      (before : List Published) (c : Client)
      → c.published ≡ before
      → ((c' : Client)
          → c'.published ≡ before
          → OneEvent py smpp answer now event_id m before (next c'))
      → OneEvent py smpp answer now event_id m before
          (after_answer py smpp answer now event_id m a r next c)
  unfolding after_answer
  after_answer-OneEvent m a (err x) next before c same h = inr ((x, refl), same)
  after_answer-OneEvent m a (ok r) next before c same h =
      elim (Bool-cases (r.status == "ESME_ROK")) [
        | inl good ↦ rw (good, after_answer) (stored (smpp_id py smpp answer now event_id r))
        | inr bad ↦
            rw (bad, after_answer)
              (send_event-OneEvent py smpp answer now event_id m _ before c same
                (nack_made py smpp answer now event_id m r (smpp.description r.status) refl))
      ]
    where
      stored :
          (d : Result String)
          → OneEvent py smpp answer now event_id m before (elim d [
            | err e ↦ (err e, c)
            | ok id ↦ next (record c {
              smpp_cache = store_smpp_message_id a.now a.stamp m.message_id id c.smpp_cache;
            })
          ])
      stored (err x) = inr ((x, refl), same)
      stored (ok id) = h _ same

  send_pdus-OneEvent :
      (m : Message) (pdus : List SubmitSm) (before : List Published) (c : Client)
      → c.published ≡ before
      → OneEvent py smpp answer now event_id m before
          (send_pdus py smpp answer now event_id m pdus c)
  unfolding send_pdus
  send_pdus-OneEvent m [] before c same =
      let (e, made, on, kind) = ack_event_lem py smpp answer now event_id m in
      send_event-OneEvent py smpp answer now event_id m _ before c same (inl (e, made, on))
  send_pdus-OneEvent m (pdu ∷ pdus) before c same =
      let r = exchange smpp false "SubmitSM" pdu.seq_num (submit_sm pdu) (answer pdu).response c in
      after_answer-OneEvent m (answer pdu) r.0 (send_pdus py smpp answer now event_id m pdus) before
        r.1
        (exchange-published smpp false "SubmitSM" pdu.seq_num (submit_sm pdu) (answer pdu).response
            c
          ∙ same)
        (λ c' same'. send_pdus-OneEvent m pdus before c' same')

  -- A call of `send_vumi_message` that returns has published one event and nothing else, on the
  -- message that was sent. A call that raises has published nothing.
  pub send_vumi_message-OneEvent :
      (config : Submit.Config) (m : Message) (c : Client)
      → OneEvent py smpp answer now event_id m c.published
          (send_vumi_message py smpp answer now event_id config m c)
  unfolding send_vumi_message
  send_vumi_message-OneEvent config m c =
      by_pdus (Submit.handle_outbound_message py config m c.sequencer)
    where
      by_pdus :
          (r : Result (List SubmitSm) × Sequencer)
          → OneEvent py smpp answer now event_id m c.published (elim r.0 [
            | err e ↦ (err e, record c { sequencer = r.1 })
            | ok pdus ↦ send_pdus py smpp answer now event_id m pdus (record c { sequencer = r.1 })
          ])
      by_pdus (err x, s) = inr ((x, refl), refl)
      by_pdus (ok pdus, s) = send_pdus-OneEvent m pdus c.published (record c { sequencer = s }) refl
