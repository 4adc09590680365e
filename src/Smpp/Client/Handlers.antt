-- ===== src/Smpp/Client/Handlers.antt =====
-- The handlers of `EsmeClient` in src/vumi2/transports/smpp/client.py: `handle_pdu` and what it
-- calls, the bind and the loop of `enquire_link`.
use vumi.Prelude.{
  ℕ, String, true, Option, none, some, [], ◌∷◌, ◌++◌, Result, ok, err, ◌>>=◌, smsc_unbind,
  enquire_link_timeout, bind_timeout, Error,
}
use vumi.Messages.{Message}
use vumi.Smpp.Pdu.{Bytes, DeliverSm, PythonCodecs}
use vumi.Smpp.Sequencers.{get_next_sequence_number}
use vumi.Smpp.Cache.{SmppCache}
use vumi.Smpp.Deliver
use vumi.Smpp.Reports.{Handled, handled, not_handled}
use vumi.Smpp.Reports
use vumi.Smpp.Client.{
  Response, Sent, enquire_link, bind_transceiver, respond, Published, message, event, Client,
  SmppPdu, send_response, send_request, handle_response, exchange,
}

-- A decoded PDU, by the tests of `handle_pdu`. A request without a handler is `other_request`.
pub data Received : Type 0 where
  deliver_sm : DeliverSm → Received
  unbind enquire_link_request other_request : (seq_num : ℕ) → Received
  response : Response → Received
  unknown : Received

module _ (py : PythonCodecs) (sm_config : Deliver.Config) (dr_config : Reports.Config) (now : ℕ)
    (id : String) where
  -- What `handle_deliver_sm` does behind the processors, which have left the cache.
  unfoldable pub answer_deliver_sm :
      (seq_num : ℕ) → Result (Option Published) → SmppCache → Client → Result (Unit {0}) × Client
  answer_deliver_sm seq_num (err e) cache c = (err e, record c { smpp_cache = cache })
  answer_deliver_sm seq_num (ok none) cache c = (
    ok tt,
    send_response (respond "DeliverSMResp" seq_num "ESME_ROK") (record c { smpp_cache = cache }),
  )
  answer_deliver_sm seq_num (ok (some m)) cache c = (
    ok tt,
    send_response (respond "DeliverSMResp" seq_num "ESME_ROK")
        (record c { smpp_cache = cache; published = c.published ++ (m ∷ []) }),
  )

  abbrev pub as_message : Result (Option Message) → Result (Option Published)
  as_message (err e) = err e
  as_message (ok none) = ok none
  as_message (ok (some m)) = ok (some (message m))

  -- The processor of reports first, and that of messages if it did not handle the PDU.
  unfoldable pub process_deliver_sm : DeliverSm → SmppCache → Result (Option Published) × SmppCache
  unfolding Reports.handle_deliver_sm Deliver.handle_deliver_sm
  process_deliver_sm pdu cache =
      let (report, cache') = Reports.handle_deliver_sm py dr_config now id pdu cache in
      elim report [
        | err e ↦ (err e, cache')
        | ok not_handled ↦
            let (m, cache'') = Deliver.handle_deliver_sm py sm_config now id pdu cache' in
            (as_message m, cache'')
        | ok (handled none) ↦ (ok none, cache')
        | ok (handled (some e)) ↦ (ok (some (event e)), cache')
      ]

  unfoldable pub handle_deliver_sm : DeliverSm → Client → Result (Unit {0}) × Client
  unfolding process_deliver_sm answer_deliver_sm
  handle_deliver_sm pdu c =
      let (m, cache) = process_deliver_sm pdu c.smpp_cache in
      answer_deliver_sm pdu.seq_num m cache c

  unfoldable pub handle_unbind : (seq_num : ℕ) → Client → Result (Unit {0}) × Client
  handle_unbind seq_num c =
      (err smsc_unbind, send_response (respond "UnbindResp" seq_num "ESME_ROK") c)

  unfoldable pub handle_enquire_link : (seq_num : ℕ) → Client → Result (Unit {0}) × Client
  handle_enquire_link seq_num c =
      (ok tt, send_response (respond "EnquireLinkResp" seq_num "ESME_ROK") c)

  unfoldable pub handle_pdu : Received → Client → Result (Unit {0}) × Client
  unfolding handle_deliver_sm handle_unbind handle_enquire_link handle_response
  handle_pdu (deliver_sm pdu) c = handle_deliver_sm pdu c
  handle_pdu (unbind seq_num) c = handle_unbind seq_num c
  handle_pdu (enquire_link_request seq_num) c = handle_enquire_link seq_num c
  handle_pdu (other_request seq_num) c =
      (ok tt, send_response (respond "GenericNack" seq_num "ESME_RINVCMDID") c)
  handle_pdu (response r) c = let (task, c') = handle_response r c in (task >>= λ _. ok tt, c')
  handle_pdu unknown c = (ok tt, c)

-- A request with the next sequence number, and its response if one comes in time. Without one the
-- entry in `responses` stays.
unfoldable pub timed_request :
    SmppPdu
    → (request : String) → (ℕ → Sent)
    → Error
    → Option Response
    → Client
    → Result Response × Client
unfolding exchange send_request get_next_sequence_number
timed_request smpp request pdu timeout answer c =
    let (n, s) = get_next_sequence_number c.sequencer in
    let c' = record c { sequencer = s } in
    elim answer [
      | none ↦ (err timeout, send_request smpp request n (pdu n) c')
      | some r ↦ exchange smpp true request n (pdu n) r c'
    ]

-- `bind`, where the fields of the PDU are left out.
unfoldable pub bind : SmppPdu → Option Response → Client → Result Response × Client
unfolding timed_request
bind smpp answer c = timed_request smpp "BindTransceiver" bind_transceiver bind_timeout answer c

-- One round of the loop in `enquire_link`.
unfoldable pub enquire_link_round : SmppPdu → Option Response → Client → Result (Unit {0}) × Client
unfolding timed_request
enquire_link_round smpp answer c =
    let (r, c') = timed_request smpp "EnquireLink" enquire_link enquire_link_timeout answer c in
    (r >>= λ _. ok tt, c')

-- The body of the inner loop of `consume_stream`, for a decoder of the package.
unfoldable pub receive :
    PythonCodecs
    → Deliver.Config
    → Reports.Config
    → (Bytes → Result Received)
    → (now : ℕ) (id : String) → Bytes
    → Client
    → Result (Unit {0}) × Client
unfolding handle_pdu
receive py sm_config dr_config decode now id pdu_data c = elim (decode pdu_data) [
  | err e ↦ (err e, c)
  | ok pdu ↦ handle_pdu py sm_config dr_config now id pdu c
]
