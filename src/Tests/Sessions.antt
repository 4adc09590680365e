-- ===== src/Tests/Sessions.antt =====
-- The theorems on src/vumi2/transports/aat_ussd/aat_ussd.py at concrete inputs.
use vumi.Prelude.{◌≡◌, ◌++◌, refl, String, none, some, List, [], ◌∷◌, ok, err, key_error, string_eq}
use vumi.Prelude.Dict
use vumi.Messages.{Message, Session, new_message, ussd}
use vumi.HttpRpc.{Request}
use vumi.AatUssd.{AatUssd, handle_raw_inbound_message, handle_outbound_message}
use vumi.AatUssd.Sessions.{Opens, handle_outbound_message_late, handle_raw_inbound_message-Handled}

abbrev complete : Request
complete = record {
  method = "GET";
  headers = [];
  args = ("msisdn", "+1") ∷ ("provider", "p") ∷ ("request", "*120#") ∷ [];
  data_ = "";
}

abbrev lacking : Request
lacking = record complete { args = ("msisdn", "+1") ∷ [] }

abbrev waiting : Request → AatUssd
waiting r = record {
  http = record { requests = ("r1", r) ∷ []; results = []; woken = []; published = [] };
  inbound = [];
}

abbrev body : List String → String
body names = "missing"

handle_raw_inbound_message-Handled_example :
    (m : Message) × (handle_raw_inbound_message body "ussd" 5 "r1" complete (waiting complete)
      ≡ (ok tt, record (waiting complete) { inbound = [] ++ (m ∷ []) }))
    × Opens body "ussd" 5 "r1" "+1" "p" "*120#" none m
unfolding Dict.lookup
handle_raw_inbound_message-Handled_example =
    handle_raw_inbound_message-Handled body "ussd" 5 "r1" complete (waiting complete) refl

abbrev late : Message
late = record (new_message 2 "m2" "+9" "+2" "ussd" ussd) {
  content = some "hello";
  in_reply_to = some "r0";
}

abbrev xml : String → String → Session → String
xml text from_addr event = text

handle_outbound_message_late_example :
    ((handle_outbound_message xml 5 "e" late (waiting complete).http).0 ≡ err key_error)
    × ((handle_outbound_message xml 5 "e" late (waiting complete).http).1.published ≡ [])
    × (Dict.lookup "r0" (handle_outbound_message xml 5 "e" late (waiting complete).http).1.results
        ≡ some (record { data_ = "hello"; code = 200; headers = [] }))
unfolding Dict.lookup new_message
handle_outbound_message_late_example =
    handle_outbound_message_late xml 5 "e" "r0" "hello" late (waiting complete).http refl refl refl
      refl refl
