-- ===== src/AatUssd.antt =====
-- `AatUssdTransport` of src/vumi2/transports/aat_ussd/aat_ussd.py, on top of HttpRpc. The
-- rendering of the two bodies, `missing_body` for the dictionary of missing parameters and
-- `generate_body` for the XML of a reply with its callback, is an argument.
pub mod Sessions
use vumi.Prelude.{
  ℕ, String, Bool, true, false, not, ◌&&◌, ◌||◌, Option, none, some, List, [], ◌∷◌, ◌++◌, string_eq,
  Result, ok, err, if◌then◌else◌,
}
use vumi.Prelude.Dict
use vumi.Messages.{Message, Session, new, resume, ussd, msisdn, new_message}
use vumi.Messages.Value.{Value, Fields, field, end, str, null, obj}
use vumi.HttpRpc.{
  Request, HttpRpc, finish_request, publish_event, missing, given_field, nack_of, ack_of,
}

-- The transport, with the messages that the connector has taken.
pub record AatUssd : Type 0 where
  pub http : HttpRpc
  pub inbound : List Message

abbrev pub is_given : Option String → Bool
is_given none = false
is_given (some _) = true

abbrev pub unless : Bool → String → List String
unless true name = []
unless false name = name ∷ []

-- `sorted(missing_fields)`, with the test that one of `to_addr` and `request` is there.
unfoldable pub missing_parameters : List (String × String) → List String
unfolding Dict.lookup
missing_parameters values =
    unless (is_given (Dict.lookup "msisdn" values)) "msisdn"
    ++ (unless (is_given (Dict.lookup "provider" values)) "provider"
        ++ unless
            (is_given (Dict.lookup "to_addr" values) || is_given (Dict.lookup "request" values))
            "request")

abbrev pub optional : Option String → Value
optional none = null
optional (some v) = str v

-- The message of a request with all its parameters.
unfoldable pub inbound_message :
    (transport_name : String) (now : ℕ) (message_id from_addr provider : String)
    (ussd_session_id to_addr request : Option String)
    → Message
unfolding new_message
inbound_message transport_name now message_id from_addr provider ussd_session_id to_addr request =
    let base =
      record (new_message now message_id (given_field to_addr) from_addr transport_name ussd) {
        from_addr_type = some msisdn;
        helper_metadata = field "session_id" (optional ussd_session_id) end;
        transport_metadata =
            field "aat_ussd"
              (obj (
                field "provider" (str provider)
                  (field "ussd_session_id" (optional ussd_session_id) end)))
              end;
        provider = some provider;
      } in
    elim to_addr [
      | some addr ↦ record base { session_event = resume; content = request }
      | none ↦ record base {
        to_addr = given_field request;
        session_event = new;
        content = some (given_field request);
      }
    ]

unfoldable pub handle_raw_inbound_message :
    (missing_body : List String → String) (transport_name : String) (now : ℕ)
    → (message_id : String) → Request
    → AatUssd
    → Result (Unit {0}) × AatUssd
unfolding Dict.lookup missing_parameters finish_request inbound_message
handle_raw_inbound_message missing_body transport_name now message_id r s =
    let values = r.args in
    elim (missing_parameters values) [
      | fields ∷ more ↦
          let (res, http) = finish_request message_id (missing_body (fields ∷ more)) 400 s.http in
          (res, record s { http = http })
      | [] ↦ (
        ok tt,
        record s {
          inbound =
              s.inbound
              ++ (inbound_message transport_name now message_id
                    (given_field (Dict.lookup "msisdn" values))
                    (given_field (Dict.lookup "provider" values))
                    (Dict.lookup "ussdSessionId" values) (Dict.lookup "to_addr" values)
                    (Dict.lookup "request" values)
                  ∷ []);
        },
      )
    ]

unfoldable pub handle_outbound_message :
    (generate_body : String → (from_addr : String) → Session → String) (now : ℕ) (event_id : String)
    → Message
    → HttpRpc
    → Result (Unit {0}) × HttpRpc
unfolding publish_event finish_request
handle_outbound_message generate_body now event_id m s =
    if missing m.in_reply_to
    then publish_event (nack_of now event_id m.message_id "Outbound message is not a reply") s
    else if missing m.content
    then publish_event (nack_of now event_id m.message_id "Outbound message has no content") s
    else let body = generate_body (given_field m.content) m.from_addr m.session_event in
      let (res, s') = finish_request (given_field m.in_reply_to) body 200 s in
      elim res [ err e ↦ (err e, s') | ok _ ↦ publish_event (ack_of now event_id m.message_id) s' ]
