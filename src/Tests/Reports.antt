-- ===== src/Tests/Reports.antt =====
-- The theorems on the reports of src/vumi2/transports/smpp/processors.py at concrete inputs.
use Prim.Native.String.{char_at}
use vumi.Prelude.{
  String, ◌-◌, ◌==◌, string_eq, if◌then◌else◌, some, err, value_error, List, ◌≡◌, refl, none, some,
  [], ◌∷◌, ok, arith,
}
use text.Mathlib.TextEquality.{eq_iff}
use vumi.Messages.{Event, delivered, pending, delivery_report}
use vumi.Cache.TimeoutDict.Laws.{view}
use vumi.Smpp.Reports.Regex.{match_default}
use vumi.Smpp.Reports.Parsing.{Optional}
use vumi.Smpp.Reports.Standard.{default_config}
use vumi.Prelude.Dict.{lookup}
use vumi.Smpp.Deliver
use vumi.Smpp.Client.{Client, respond}
use vumi.Smpp.Client.Handlers.{deliver_sm, handle_pdu}
use vumi.Connectors.Base.{Publication, setup_receive_outbound}
use vumi.Connectors.Base
use vumi.Connectors.Delivering.{Handlers, system}
use vumi.Smpp.Transport.{handle_all, deliveries}
use vumi.Smpp.Transport.Reporting.{report_delivered}
use vumi.Cache.TimeoutDict.Expiry.{IsValid}
use vumi.Smpp.Pdu.{Bytes, PythonCodecs, DeliverSm, other_type, smsc_default_alphabet}
use vumi.Smpp.Codecs
use vumi.Smpp.Cache.{SmppCache}
use vumi.Smpp.Reports
use vumi.Smpp.Reports.{
  Config, handled, default_status_mapping, create_event, handle_deliver_sm, or_else,
  handle_optional_params, handle_body,
}
use vumi.Smpp.Reports.Laws.{create_event_twice}

abbrev py : PythonCodecs
py = record {
  encode = λ codec text. Codecs.encode Codecs.strict text;
  decode = λ codec bytes. Codecs.decode Codecs.strict bytes;
}

-- Every text is a report on "id".
abbrev config : Config
config = record { regex = λ text. some ("id", "DELIVRD"); status_mapping = default_status_mapping }

abbrev cache : SmppCache
cache = record {
  multipart = [];
  smpp_msg_id = record { items = ("id", (1, "m1")) ∷ []; timeout = 100 };
}

cache-IsValid : IsValid 5 cache.smpp_msg_id
cache-IsValid = record { distinct = (tt, tt); ordered = (tt, tt); past = (omega arith, tt) }

-- The report that the message was delivered is lost behind the one that it was on its way.
create_event_twice_example :
    (create_event config 6 "f" "id" "DELIVRD" (create_event config 5 "e" "id" "ENROUTE" cache).1).0
    ≡ ok none
unfolding Reports.status_of
create_event_twice_example =
    create_event_twice config 5 6 "e" "f" "id" "ENROUTE" "DELIVRD" pending delivered cache
      (omega arith) cache-IsValid refl refl

abbrev report : DeliverSm
report = record {
  seq_num = 3;
  source_addr = 49 ∷ [];
  destination_addr = 50 ∷ [];
  esm_class = other_type;
  data_coding = smsc_default_alphabet;
  short_message = some (104 ∷ 105 ∷ []);
  message_payload = none;
  sar_msg_ref_num = none;
  sar_total_segments = none;
  sar_segment_seqnum = none;
  receipted_message_id = none;
  message_state = none;
}

-- Latin-1, for the bytes that are printable ASCII: the first of them is 32.
abbrev latin1_text : Bytes → String
latin1_text [] = ""
latin1_text (b ∷ bytes) =
    String.◌∷◌
      (char_at
        " !\"#$%&'()*+,-./0123456789:;<=>?@ABCDEFGHIJKLMNOPQRSTUVWXYZ[\\]^_`abcdefghijklmnopqrstuvwxyz{|}~"
        (b - 32))
      (latin1_text bytes)

abbrev latin1 : PythonCodecs
latin1 = record py {
  decode = λ codec bytes. if codec == "latin1" then ok (latin1_text bytes) else err value_error;
}

abbrev undeliverable : DeliverSm
undeliverable = record report {
  short_message = some (
      105 ∷ 100 ∷ 58 ∷ 105 ∷ 100 ∷ 32 ∷ 115 ∷ 117 ∷ 98 ∷ 58 ∷ 48 ∷ 48 ∷ 49 ∷ 32 ∷ 100 ∷ 108 ∷ 118
      ∷ 114 ∷ 100 ∷ 58 ∷ 48 ∷ 48 ∷ 49 ∷ 32 ∷ 115 ∷ 117 ∷ 98 ∷ 109 ∷ 105 ∷ 116 ∷ 32 ∷ 100 ∷ 97 ∷ 116
      ∷ 101 ∷ 58 ∷ 50 ∷ 50 ∷ 48 ∷ 57 ∷ 49 ∷ 50 ∷ 49 ∷ 51 ∷ 53 ∷ 52 ∷ 32 ∷ 100 ∷ 111 ∷ 110 ∷ 101 ∷ 32
      ∷ 100 ∷ 97 ∷ 116 ∷ 101 ∷ 58 ∷ 50 ∷ 50 ∷ 48 ∷ 57 ∷ 49 ∷ 50 ∷ 49 ∷ 52 ∷ 53 ∷ 52 ∷ 32 ∷ 115 ∷ 116
      ∷ 97 ∷ 116 ∷ 58 ∷ 85 ∷ 78 ∷ 68 ∷ 69 ∷ 76 ∷ 73 ∷ 86 ∷ 32 ∷ 101 ∷ 114 ∷ 114 ∷ 58 ∷ 48 ∷ 48 ∷ 48
      ∷ 32 ∷ 116 ∷ 101 ∷ 120 ∷ 116 ∷ 58 ∷ []);
}

abbrev optional : Optional
optional = record {
  sub = some "001";
  dlvrd = some "001";
  submit_date = some "2209121354";
  done_date = some "2209121454";
  err = some "000";
}

abbrev messages : Deliver.Config
messages = record { data_coding_overrides = [] }

abbrev client : Client
client = record {
  sequencer = record { sequence_number = 41 };
  smpp_cache = cache;
  responses = [];
  sent = [];
  published = [];
}

abbrev apps : List (String × Handlers)
apps = ("smpp", record { inbound_handler = "on_message"; event_handler = "on_event" }) ∷ []

report_delivered_example :
    let (result, c') =
      handle_pdu latin1 messages default_config 5 "e" (deliver_sm undeliverable) client in
    (back : List Publication) × (e : Event) × (result ≡ ok tt)
    × (c'.sent ≡ respond "DeliverSMResp" 3 "ESME_ROK" ∷ [])
    × (handle_all "smpp" (setup_receive_outbound "smpp" "send") c'.published [] ≡ ok back)
    × (deliveries (system apps (("smpp", "send") ∷ [])) back ≡ ("on_event", Base.event e) ∷ [])
    × (e.user_message_id ≡ "m1")
    × (e.event_type ≡ delivery_report)
    × (e.delivery_status ≡ some pending)
unfolding Reports.status_of view lookup
report_delivered_example =
    report_delivered latin1 messages 5 "e" apps (("smpp", "send") ∷ []) "smpp"
      (record { inbound_handler = "on_message"; event_handler = "on_event" }) "send" undeliverable
      client optional "id" "UNDELIV" "" "m1" pending (tt, tt) (tt, tt) refl refl refl refl refl
      (
        (refl, omega arith),
        (refl, omega arith),
        (refl, omega arith),
        (refl, omega arith),
        (refl, omega arith),
      )
      refl (omega arith) refl (omega arith) (omega arith) cache-IsValid refl
      (λ p. ground (arith, eq_iff "m1" "")) refl

-- With all the optional fields.
match_default_run :
    match_default
      "id:1b2 sub:001 dlvrd:001 submit date:2401 done date:2402 stat:DELIVRD err:000 text:hi"
    ≡ some ("1b2", "DELIVRD")
unfolding match_default
match_default_run = refl
