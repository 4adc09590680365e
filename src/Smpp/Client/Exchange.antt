-- ===== src/Smpp/Client/Exchange.antt =====
-- One exchange of `send_vumi_message` (src/vumi2/transports/smpp/client.py), and the events that
-- it makes.
use vumi.Prelude.{
  ℕ, String, Bool, true, false, ◌≡◌, refl, ap, ◌∙◌, none, some, List, [], ◌∷◌, ◌++◌, Result, ok,
  err, Error, ◌⊎◌, inl, inr, ◌>>=◌, string_eq, nat_eq, beq_self,
}
use vumi.Prelude.Dict
use vumi.Messages.{Message, Event, ack, nack, new_event}
use vumi.Smpp.Pdu.{PythonCodecs, SubmitSm}
use vumi.Messages.Value.{end}
use vumi.Smpp.Client.Answers.{handle_response-Answers}
use vumi.Smpp.Client.{
  Response, Sent, Client, Published, event, SmppPdu, send_request, check_answer, handle_response,
  exchange, Answer, send_event, ack_event, nack_event,
}

handle_response-some :
    (r : Response) (c : Client) (class : String)
    → Dict.lookup r.seq_num c.responses ≡ some class
    → handle_response r c ≡ (ok class, record c { responses = Dict.erase r.seq_num c.responses })
unfolding handle_response
handle_response-some r c class e = rw (e, handle_response) refl

-- The registered request is found by the response with its number.
handle_response-send_request :
    (smpp : SmppPdu) (request : String) (n : ℕ) (pdu : Sent) (r : Response) (c : Client)
    → r.seq_num ≡ n
    → handle_response r (send_request smpp request n pdu c) ≡ (
      ok (smpp.require_ack request),
      record c {
        responses = Dict.erase n (Dict.insert n (smpp.require_ack request) c.responses);
        sent = c.sent ++ (pdu ∷ []);
      },
    )
unfolding handle_response send_request
handle_response-send_request smpp request n pdu r c same =
    let class = smpp.require_ack request in
    handle_response-some r (send_request smpp request n pdu c) class (
      ap (λ (k : ℕ). Dict.lookup k (Dict.insert n class c.responses)) same
      ∙ Dict.lookup-insert n n class c.responses
      ∙ rw (beq_self n) refl)
    ∙ ap
        (λ (k : ℕ). (
          ok class,
          record c {
            responses = Dict.erase k (Dict.insert n class c.responses);
            sent = c.sent ++ (pdu ∷ []);
          },
        ))
        same

pub exchange-published :
    (smpp : SmppPdu) (check : Bool) (request : String) (n : ℕ) (pdu : Sent) (r : Response)
    (c : Client)
    → (exchange smpp check request n pdu r c).1.published ≡ c.published
unfolding exchange send_request handle_response
exchange-published smpp check request n pdu r c =
    (handle_response-Answers r (send_request smpp request n pdu c)).1

pub exchange-answered :
    (smpp : SmppPdu) (request : String) (n : ℕ) (pdu : Sent) (r : Response) (c : Client)
    → r.seq_num ≡ n
    → smpp.is_instance r (smpp.require_ack request) ≡ true
    → exchange smpp false request n pdu r c ≡ (
      ok r,
      record c {
        responses = Dict.erase n (Dict.insert n (smpp.require_ack request) c.responses);
        sent = c.sent ++ (pdu ∷ []);
      },
    )
unfolding exchange check_answer
exchange-answered smpp request n pdu r c same right =
    ap (λ (x : Result String × Client). (x.0 >>= λ class. check_answer smpp false class r, x.1))
      (handle_response-send_request smpp request n pdu r c same)
    ∙ rw right refl

module _ (py : PythonCodecs) (smpp : SmppPdu) (answer : SubmitSm → Answer) (now : ℕ)
    (event_id : String) where
  -- The event that a call adds is on the message, or an exception comes out and there is none.
  abbrev pub OneEvent : Message → List Published → Result (Unit {0}) × Client → Type 0
  OneEvent m before out =
      ((out.0 ≡ ok tt)
        × ((e : Event) × (out.1.published ≡ before ++ (event e ∷ []))
            × (e.user_message_id ≡ m.message_id)
            × (e.sent_message_id ≡ some m.message_id)))
      ⊎ (((x : Error) × (out.0 ≡ err x)) × (out.1.published ≡ before))

  -- Shorter names for the definitions under the shared parameters.
  abbrev send_event' : Result Event → Client → Result (Unit {0}) × Client
  send_event' = send_event py smpp answer now event_id

  abbrev acks : Message → Result Event
  acks = ack_event py smpp answer now event_id

  abbrev nacks : Message → Response → Result Event
  nacks = nack_event py smpp answer now event_id

  abbrev pub IsOn : Message → Event → Type 0
  IsOn m e = (e.user_message_id ≡ m.message_id) × (e.sent_message_id ≡ some m.message_id)

  pub ack_event_lem :
      (m : Message) → (e : Event) × (acks m ≡ ok e) × IsOn m e × (e.event_type ≡ ack)
  unfolding new_event
  ack_event_lem m = (_, refl, (refl, refl), refl)

  new_nack :
      (m : Message) (reason : String)
      → (e : Event) × (new_event now event_id m.message_id nack
            (some m.message_id)
            (some reason)
            none
            end
          ≡ ok e)
        × IsOn m e
        × (e.event_type ≡ nack)
        × (e.nack_reason ≡ some reason)
  unfolding new_event
  new_nack m reason = (_, refl, (refl, refl), refl, refl)

  pub nack_event_lem :
      (m : Message) (r : Response) (reason : String)
      → smpp.description r.status ≡ ok reason
      → (e : Event) × (nacks m r ≡ ok e)
        × IsOn m e
        × (e.event_type ≡ nack)
        × (e.nack_reason ≡ some reason)
  nack_event_lem m r reason known =
      let (e, made, facts, kind, why) = new_nack m reason in (e, rw known made, facts, kind, why)

  pub send_event-OneEvent :
      (m : Message) (r : Result Event) (before : List Published) (c : Client)
      → c.published ≡ before
      → ((e : Event) × (r ≡ ok e) × IsOn m e) ⊎ ((x : Error) × (r ≡ err x))
      → OneEvent m before (send_event' r c)
  unfolding send_event
  send_event-OneEvent m r before c same (inl (e, made, on)) = inl (
    rw made refl,
    (e, rw made (ap (λ (l : List Published). l ++ (event e ∷ [])) same), on.0, on.1),
  )
  send_event-OneEvent m r before c same (inr (x, failed)) =
      inr ((x, rw failed refl), rw failed same)

  pub nack_made :
      (m : Message) (r : Response) (d : Result String)
      → smpp.description r.status ≡ d
      → ((e : Event) × (nacks m r ≡ ok e) × IsOn m e) ⊎ ((x : Error) × (nacks m r ≡ err x))
  nack_made m r (err x) known = inr (x, rw known refl)
  nack_made m r (ok reason) known =
      let (e, made, on, kind, why) = nack_event_lem m r reason known in inl (e, made, on)
