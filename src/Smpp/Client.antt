-- ===== src/Smpp/Client.antt =====
-- `EsmeClient` of src/vumi2/transports/smpp/client.py, after the framing of the stream. The state
-- is what the client keeps and what has left it: the PDUs that `publish_stream` writes and the
-- messages that the channel to the transport takes, both in order.
pub mod Answers
pub mod Exchange
pub mod Sending
pub mod Acceptance
pub mod Report
pub mod Handlers
use vumi.Prelude.{
  ℕ, String, Bool, true, false, not, ◌&&◌, Option, none, some, List, [], ◌∷◌, ◌++◌, Result, ok, err,
  ◌>>=◌, key_error, esme_response_status_error, smsc_unbind, enquire_link_timeout, bind_timeout,
  ◌==◌, string_eq, nat_eq, if◌then◌else◌,
}
use vumi.Prelude.Dict
use vumi.Messages.{Message, Event, new_event, ack, nack}
use vumi.Messages.Value.{end}
use vumi.Smpp.Pdu.{Bytes, SubmitSm, DeliverSm, PythonCodecs}
use vumi.Smpp.Sequencers.{Sequencer, get_next_sequence_number}
use vumi.Smpp.Cache.{SmppCache, store_smpp_message_id}
use vumi.Smpp.Submit
use vumi.Smpp.Deliver
use vumi.Smpp.Reports.{Handled, handled, not_handled}
use vumi.Smpp.Reports

-- `PDUResponse`, with the class's name.
pub record Response : Type 0 where
  pub class : String
  pub seq_num : ℕ
  pub status : String
  pub message_id : Option Bytes

-- What `send_pdu` sends: the requests of the client and its responses.
pub data Sent : Type 0 where
  submit_sm : SubmitSm → Sent
  enquire_link bind_transceiver : (seq_num : ℕ) → Sent
  respond : (class : String) (seq_num : ℕ) (status : String) → Sent

pub data Published : Type 0 where
  message : Message → Published
  event : Event → Published

pub record Client : Type 0 where
  pub sequencer : Sequencer
  pub smpp_cache : SmppCache
  -- `responses`: the class that the waiting task requires, under the number of its request.
  pub responses : List (ℕ × String)
  pub sent : List Sent
  pub published : List Published

-- What the client uses of the package `smpp.pdu`: `requireAck` of a request as a class's name, its
-- subclass test, and the description of an error status.
pub record SmppPdu : Type 0 where
  pub require_ack : (request : String) → String
  pub is_instance : Response → (class : String) → Bool
  pub description : (status : String) → Result String

-- `send_pdu` up to the wait: for a response that is all.
abbrev pub send_response : Sent → Client → Client
send_response pdu c = record c { sent = c.sent ++ (pdu ∷ []) }

unfoldable pub send_request : SmppPdu → (request : String) (seq_num : ℕ) → Sent → Client → Client
unfolding Dict.insert
send_request smpp request seq_num pdu c = record c {
  responses = Dict.insert seq_num (smpp.require_ack request) c.responses;
  sent = c.sent ++ (pdu ∷ []);
}

-- The checks of `send_pdu` on the response.
unfoldable pub check_answer :
    SmppPdu → (check_response : Bool) (class : String) → Response → Result Response
check_answer smpp check_response class response =
    if check_response && not (response.status == "ESME_ROK")
    then err esme_response_status_error
    else if smpp.is_instance response class
    then ok response
    else err esme_response_status_error

-- The response branch of `handle_pdu`: the class that the task waits for, which gets the response.
unfoldable pub handle_response : Response → Client → Result String × Client
unfolding Dict.lookup Dict.erase
handle_response response c = elim (Dict.lookup response.seq_num c.responses) [
  | none ↦ (err key_error, c)
  | some class ↦ (ok class, record c { responses = Dict.erase response.seq_num c.responses })
]

-- A request, the response that the server gives, and the checks on it. A response with the number
-- of no request is a `KeyError` of the task that reads the stream.
unfoldable pub exchange :
    SmppPdu
    → (check_response : Bool) (request : String) (seq_num : ℕ) → Sent
    → Response
    → Client
    → Result Response × Client
unfolding send_request check_answer handle_response
exchange smpp check_response request seq_num pdu response c =
    let (waits, c') = handle_response response (send_request smpp request seq_num pdu c) in
    (waits >>= λ class. check_answer smpp check_response class response, c')

-- What the server does with a `submit_sm`, and the times at which the cache is then used.
pub record Answer : Type 0 where
  pub response : Response
  pub now : ℕ
  pub stamp : ℕ

module _ (py : PythonCodecs) (smpp : SmppPdu) (answer : SubmitSm → Answer) (now : ℕ)
    (event_id : String) where
  -- `await self.send_message_channel.send(event)`, and the return.
  unfoldable pub send_event : Result Event → Client → Result (Unit {0}) × Client
  send_event (err e) c = (err e, c)
  send_event (ok e) c = (ok tt, record c { published = c.published ++ (event e ∷ []) })

  abbrev pub ack_event : Message → Result Event
  ack_event m = new_event now event_id m.message_id ack (some m.message_id) none none end

  abbrev pub nack_event : Message → Response → Result Event
  nack_event m response = smpp.description response.status >>= λ reason.
      new_event now event_id m.message_id nack (some m.message_id) (some reason) none end

  -- `response.params["message_id"].decode()`
  abbrev pub smpp_id : Response → Result String
  smpp_id response = Deliver.given response.message_id >>= λ id. py.decode "utf-8" id

  -- The body of the loop behind the call of `send_pdu`, the next rounds being `next`.
  unfoldable pub after_answer :
      Message
      → Answer
      → Result Response
      → (Client → Result (Unit {0}) × Client)
      → Client
      → Result (Unit {0}) × Client
  unfolding send_event store_smpp_message_id
  after_answer m a (err e) next c = (err e, c)
  after_answer m a (ok response) next c =
      if response.status == "ESME_ROK"
      then elim (smpp_id response) [
        | err e ↦ (err e, c)
        | ok id ↦ next (record c {
          smpp_cache = store_smpp_message_id a.now a.stamp m.message_id id c.smpp_cache;
        })
      ]
      else send_event (nack_event m response) c

  -- The loop of `send_vumi_message`.
  unfoldable pub send_pdus : Message → List SubmitSm → Client → Result (Unit {0}) × Client
  unfolding send_event exchange after_answer
  send_pdus m [] c = send_event (ack_event m) c
  send_pdus m (pdu ∷ pdus) c =
      let a = answer pdu in
      let (response, c') =
        exchange smpp false "SubmitSM" pdu.seq_num (submit_sm pdu) a.response c in
      after_answer m a response (λ c''. send_pdus m pdus c'') c'

  unfoldable pub send_vumi_message : Submit.Config → Message → Client → Result (Unit {0}) × Client
  unfolding Submit.handle_outbound_message send_pdus
  send_vumi_message config m c =
      let (pdus, s) = Submit.handle_outbound_message py config m c.sequencer in
      elim pdus [
        | err e ↦ (err e, record c { sequencer = s })
        | ok pdus' ↦ send_pdus m pdus' (record c { sequencer = s })
      ]
