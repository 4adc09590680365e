-- ===== src/Tests/Clients.antt =====
-- The theorems on `EsmeClient` of src/vumi2/transports/smpp/client.py at concrete inputs.
use vumi.Prelude.{
  ℕ, String, List, ◌≡◌, ◌<>◌, ◌∷◌, refl, none, some, [], ok, ◌==◌, string_eq, nat_eq, arith,
  if◌then◌else◌,
}
use text.Mathlib.TextEquality.{eq_iff}
use vumi.Messages.{Message, Event, new_message, sms, ack, nack, delivery_report, delivered}
use vumi.Cache.TimeoutDict.Expiry.{IsValid}
use vumi.Smpp.Pdu.{SubmitSm, DeliverSm, PythonCodecs, latin_1, smsc_default_alphabet, default}
use vumi.Smpp.Codecs
use vumi.Smpp.Sequencers.{Sequencer}
use vumi.Smpp.Submit
use vumi.Smpp.Submit.{default_config, multipart_sar, sar_body, submit_sm}
use vumi.Smpp.Deliver
use vumi.Smpp.Reports
use vumi.Smpp.Client.{Client, SmppPdu, Answer, send_vumi_message, submit_sm as sends}
use vumi.Smpp.Client.Exchange.{OneEvent}
use vumi.Smpp.Client.Sending.{send_vumi_message-OneEvent}
use vumi.Smpp.Client.Acceptance.{
  send_vumi_message-ack, send_vumi_message-nack, publish, accepted, exchanged, AllAccepted, Refuses,
}
use vumi.Smpp.Client.Report.{report_after_send}
use vumi.Smpp.Client.Answers.{Answers}
use vumi.Connectors.Base.{
  Publication, setup_receive_inbound, setup_receive_outbound, publish_outbound,
}
use vumi.Connectors.Base
use vumi.Connectors.Delivering.{Handlers, system}
use vumi.Smpp.Transport.{handle_all, handle_outbound, deliveries}
use vumi.Smpp.Transport.Answering.{handed_over, outbound_acknowledged}
use vumi.Prelude.Dict
use vumi.Tests.Segments.{zeros}

-- Every text is encoded as 200 bytes, and decoded as GSM 03.38.
abbrev py : PythonCodecs
py = record {
  encode = λ codec text. ok (zeros 200);
  decode = λ codec bytes. Codecs.decode Codecs.strict bytes;
}

abbrev smpp : SmppPdu
smpp = record {
  require_ack = λ request. request <> "Resp";
  is_instance = λ r class. r.class == class;
  description = λ status. ok "Message Queue Full";
}

-- A server that accepts the PDU with the number 43 alone, as "id".
abbrev answer : SubmitSm → Answer
answer pdu = record {
  response = record {
    class = "SubmitSMResp";
    seq_num = pdu.seq_num;
    status = if pdu.seq_num == 43 then "ESME_ROK" else "ESME_RMSGQFUL";
    message_id = some (105 ∷ 100 ∷ []);
  };
  now = 5;
  stamp = 6;
}

abbrev config : Submit.Config
config = record default_config { multipart_handling = multipart_sar; data_coding = latin_1 }

abbrev long : Message
long = record (new_message 1 "m1" "+1" "+2" "smpp" sms) { content = some "long" }

abbrev at : ℕ → Sequencer
at n = record { sequence_number = n }

abbrev client : Client
client = record {
  sequencer = at 41;
  smpp_cache = record { multipart = []; smpp_msg_id = record { items = []; timeout = 100 } };
  responses = [];
  sent = [];
  published = [];
}

abbrev first : SubmitSm
first = (submit_sm config "+2" "+1" (sar_body 42 2 0 (zeros 134)) (at 42)).0

abbrev second : SubmitSm
second = (submit_sm config "+2" "+1" (sar_body 42 2 1 (zeros 66)) (at 43)).0

two_parts :
    Submit.handle_outbound_message py config long (at 41) ≡ (ok (first ∷ second ∷ []), at 44)
unfolding Submit.handle_outbound_message new_message
two_parts = refl

first_accepted : AllAccepted py smpp answer 7 "e" ((first, "id") ∷ [])
unfolding submit_sm Codecs.decode
first_accepted = (((refl, refl), refl, refl), tt)

second_refused : Refuses py smpp answer 7 "e" second "Message Queue Full"
unfolding submit_sm
second_refused = ((refl, refl), refl, refl)

send_vumi_message-nack_example :
    (e : Event) × (send_vumi_message py smpp answer 7 "e" config long client ≡ (
      ok tt,
      publish py smpp answer 7 "e" e (
          exchanged py smpp answer 7 "e" second (
            accepted py smpp answer 7 "e" long
              ((first, "id") ∷ [])
              (record client { sequencer = at 44 }))),
    ))
    × (e.user_message_id ≡ long.message_id)
    × (e.event_type ≡ nack)
    × (e.nack_reason ≡ some "Message Queue Full")
send_vumi_message-nack_example =
    send_vumi_message-nack py smpp answer 7 "e" config long ((first, "id") ∷ []) second []
      "Message Queue Full" (at 44) client two_parts first_accepted second_refused

-- A server that accepts every PDU, as "id".
abbrev willing : SubmitSm → Answer
willing pdu = record {
  response = record {
    class = "SubmitSMResp";
    seq_num = pdu.seq_num;
    status = "ESME_ROK";
    message_id = some (105 ∷ 100 ∷ []);
  };
  now = 5;
  stamp = 6;
}

both_accepted : AllAccepted py smpp willing 7 "e" ((first, "id") ∷ (second, "id") ∷ [])
unfolding Codecs.decode
both_accepted = (((refl, refl), refl, refl), (((refl, refl), refl, refl), tt))

send_vumi_message-ack_example :
    (e : Event) × (send_vumi_message py smpp willing 7 "e" config long client ≡ (
      ok tt,
      publish py smpp willing 7 "e" e (
          accepted py smpp willing 7 "e" long
            ((first, "id") ∷ (second, "id") ∷ [])
            (record client { sequencer = at 44 })),
    ))
    × (e.user_message_id ≡ long.message_id)
    × (e.event_type ≡ ack)
send_vumi_message-ack_example =
    send_vumi_message-ack py smpp willing 7 "e" config long ((first, "id") ∷ (second, "id") ∷ [])
      (at 44) client two_parts both_accepted

send_vumi_message-OneEvent_example :
    OneEvent py smpp answer 7 "e" long []
      (send_vumi_message py smpp answer 7 "e" config long client)
send_vumi_message-OneEvent_example =
    send_vumi_message-OneEvent py smpp answer 7 "e" config long client

abbrev reports : Reports.Config
reports = record { regex = λ text. none; status_mapping = Reports.default_status_mapping }

no_ids : IsValid 5 client.smpp_cache.smpp_msg_id
no_ids = record { distinct = tt; ordered = tt; past = tt }

report_after_send_example :
    (e : Event) × ((Reports.create_event reports 50 "e" "id" "DELIVRD"
        (accepted py smpp willing 7 "e" long ((first, "id") ∷ []) client).smpp_cache).0
      ≡ ok (some e))
    × (e.user_message_id ≡ long.message_id)
    × (e.event_type ≡ delivery_report)
    × (e.delivery_status ≡ some delivered)
unfolding Reports.status_of new_message
report_after_send_example =
    report_after_send py smpp willing 7 "e" reports long first "id" "DELIVRD" 50 delivered client
      (omega arith) (omega arith) no_ids refl (λ p. ground (arith, eq_iff "m1" "")) refl

abbrev inbound : DeliverSm
inbound = record {
  seq_num = 3;
  source_addr = 49 ∷ [];
  destination_addr = 50 ∷ [];
  esm_class = default;
  data_coding = smsc_default_alphabet;
  short_message = some (104 ∷ 105 ∷ []);
  message_payload = none;
  sar_msg_ref_num = none;
  sar_total_segments = none;
  sar_segment_seqnum = none;
  receipted_message_id = none;
  message_state = none;
}

abbrev messages : Deliver.Config
messages = record { data_coding_overrides = [] }

abbrev apps : List (String × Handlers)
apps = ("smpp", record { inbound_handler = "on_message"; event_handler = "on_event" }) ∷ []

outbound_acknowledged_example :
    (out : List Publication) × (back : List Publication) × (e : Event) × (publish_outbound long
        (setup_receive_inbound "smpp" "on_message" "on_event")
        []
      ≡ ok out)
    × (deliveries (system apps (("smpp", "send") ∷ [])) out ≡ ("send", Base.message long) ∷ [])
    × ((handle_outbound py smpp willing 7 "e" config long client).1.sent
        ≡ sends first ∷ sends second ∷ [])
    × (handle_all "smpp"
          (setup_receive_outbound "smpp" "send")
          (handed_over py smpp willing 7 "e" config long client)
          []
        ≡ ok back)
    × (deliveries (system apps (("smpp", "send") ∷ [])) back ≡ ("on_event", Base.event e) ∷ [])
    × (e.user_message_id ≡ long.message_id)
    × (e.event_type ≡ ack)
unfolding Dict.lookup
outbound_acknowledged_example =
    outbound_acknowledged py smpp willing 7 "e" apps (("smpp", "send") ∷ []) "smpp"
      (record { inbound_handler = "on_message"; event_handler = "on_event" }) "send" config long
      ((first, "id") ∷ (second, "id") ∷ []) (at 44) client (tt, tt) (tt, tt) refl refl refl
      two_parts both_accepted
