-- ===== src/Tests/Replies.antt =====
-- The theorems on src/vumi2/transports/httprpc/http_rpc.py at concrete inputs.
use vumi.Prelude.{◌≡◌, refl, some, [], ◌∷◌, ok}
use vumi.Prelude.Dict
use vumi.Messages.{Message, Event, new_message, ussd, ack}
use vumi.HttpRpc.{Request, HttpRpc, end_request, handle_outbound_message}
use vumi.HttpRpc.Replies.{IsValid, IsOn, published, finished, handle_outbound_message_replies}

abbrev request : Request
request = record { method = "GET"; headers = []; args = []; data_ = "" }

abbrev waiting : HttpRpc
waiting = record { requests = ("r1", request) ∷ []; results = []; woken = []; published = [] }

waiting-IsValid : IsValid waiting
waiting-IsValid = record { requests = (tt, tt); results = tt }

abbrev reply : Message
reply = record (new_message 2 "m2" "+9" "+2" "http_rpc" ussd) {
  content = some "hello";
  in_reply_to = some "r1";
}

handle_outbound_message_replies_example :
    (e : Event) × (handle_outbound_message 5 "e" reply waiting
      ≡ (ok tt, published 5 "e" e (finished 5 "e" "r1" "hello" waiting)))
    × IsOn 5 "e" "m2" ack e
    × ((end_request "r1" (published 5 "e" e (finished 5 "e" "r1" "hello" waiting))).0
        ≡ ok (record { data_ = "hello"; code = 200; headers = [] }))
unfolding new_message Dict.lookup
handle_outbound_message_replies_example =
    handle_outbound_message_replies 5 "e" reply "r1" "hello" request waiting refl refl refl refl
      refl

abbrev unasked : Message
unasked = new_message 2 "m3" "+9" "+2" "http_rpc" ussd
