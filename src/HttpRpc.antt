-- ===== src/HttpRpc.antt =====
-- `HttpRpcTransport` of src/vumi2/transports/httprpc/http_rpc.py: requests that wait for a reply.
-- The function `inbound_request` is cut where it waits: at the wait for `finish_request`, from
-- which it goes on, or which the timeout cancels.
pub mod Replies
use vumi.Prelude.{
  ℕ, String, Bool, true, false, ◌||◌, ◌<>◌, Option, none, some, List, [], ◌∷◌, ◌++◌, ◌==◌,
  string_eq, Result, ok, err, Error, key_error, if◌then◌else◌, contains,
}
use vumi.Prelude.Dict
use vumi.Messages.{Message, Event, new_event, ack, nack}
use vumi.Messages.Value.{end}

-- `Request`, but for its event, which `woken` below stands for.
pub record Request : Type 0 where
  pub method : String
  pub headers : List (String × String)
  pub args : List (String × String)
  pub data_ : String

pub record Response : Type 0 where
  pub data_ : String
  pub code : ℕ
  pub headers : List (String × String)

pub record HttpRpc : Type 0 where
  pub requests : List (String × Request)
  pub results : List (String × Response)
  -- The requests whose event is set.
  pub woken : List String
  pub published : List Event

-- The `finally` of `inbound_request`.
unfoldable pub clean_up : String → HttpRpc → HttpRpc
unfolding Dict.erase
clean_up message_id s = record s {
  requests = Dict.erase message_id s.requests;
  results = Dict.erase message_id s.results;
}

-- `inbound_request` up to the wait. `handle_raw` is the subclass's `handle_raw_inbound_message`; an
-- exception of it goes through the `finally`.
unfoldable pub begin_request :
    (handle_raw : String → Request → HttpRpc → Result (Unit {0}) × HttpRpc)
    → (message_id : String) → Request
    → HttpRpc
    → Result (Unit {0}) × HttpRpc
unfolding Dict.insert clean_up
begin_request handle_raw message_id r s =
    let (res, s') =
      handle_raw message_id r (record s { requests = Dict.insert message_id r s.requests }) in
    elim res [ ok _ ↦ (ok tt, s') | err e ↦ (err e, clean_up message_id s') ]

-- `inbound_request` from the end of the wait on.
unfoldable pub end_request : (message_id : String) → HttpRpc → Result Response × HttpRpc
unfolding Dict.lookup clean_up
end_request message_id s = elim (Dict.lookup message_id s.results) [
  | none ↦ (err key_error, clean_up message_id s)
  | some response ↦
      (ok response, clean_up message_id (record s { results = Dict.erase message_id s.results }))
]

-- `inbound_request` where the wait is cancelled.
unfoldable pub time_out : (message_id : String) → HttpRpc → Response × HttpRpc
unfolding clean_up
time_out message_id s = (record { data_ = ""; code = 504; headers = [] }, clean_up message_id s)

-- `self.connector.publish_event(event)`
unfoldable pub publish_event : Result Event → HttpRpc → Result (Unit {0}) × HttpRpc
publish_event (err e) s = (err e, s)
publish_event (ok e) s = (ok tt, record s { published = s.published ++ (e ∷ []) })

-- `finish_request`. The entry of the request is gone, and its event is set.
unfoldable pub finish_request :
    (request_id text : String) (code : ℕ) → HttpRpc → Result (Unit {0}) × HttpRpc
unfolding Dict.insert Dict.lookup Dict.erase
finish_request request_id text code s =
    let s' = record s {
      results =
          Dict.insert request_id (record { data_ = text; code = code; headers = [] }) s.results;
    } in
    elim (Dict.lookup request_id s.requests) [
      | none ↦ (err key_error, s')
      | some r ↦ (
        ok tt,
        record s' {
          requests = Dict.erase request_id s.requests;
          woken = s.woken ++ (request_id ∷ []);
        },
      )
    ]

-- `not value` for an optional string.
abbrev pub missing : Option String → Bool
missing none = true
missing (some v) = v == ""

-- `ensure_message_fields(message, ["in_reply_to", "content"])`
abbrev pub missing_fields : Message → List String
missing_fields m =
    (if missing m.in_reply_to then "in_reply_to" ∷ [] else [])
    ++ (if missing m.content then "content" ∷ [] else [])

-- `", ".join(fields)`
abbrev pub join : List String → String
join [] = ""
join (x ∷ []) = x
join (x ∷ y ∷ xs) = x <> (", " <> join (y ∷ xs))

abbrev pub given_field : Option String → String
given_field none = ""
given_field (some v) = v

module _ (now : ℕ) (event_id : String) where
  abbrev pub nack_of : String → String → Result Event
  nack_of message_id reason =
      new_event now event_id message_id nack (some message_id) (some reason) none end

  abbrev pub ack_of : String → Result Event
  ack_of message_id = new_event now event_id message_id ack (some message_id) none none end

  -- The lines of `handle_outbound_message` for a message with both fields.
  unfoldable pub reply_to :
      Message → (in_reply_to content : String) → HttpRpc → Result (Unit {0}) × HttpRpc
  unfolding Dict.lookup finish_request publish_event
  reply_to m in_reply_to content s = elim (Dict.lookup in_reply_to s.requests) [
    | none ↦ publish_event (nack_of m.message_id "No matching request") s
    | some r ↦
        let (res, s') = finish_request in_reply_to content 200 s in
        elim res [ err e ↦ (err e, s') | ok _ ↦ publish_event (ack_of m.message_id) s' ]
  ]

  unfoldable pub handle_outbound_message : Message → HttpRpc → Result (Unit {0}) × HttpRpc
  unfolding publish_event reply_to
  handle_outbound_message m s =
      if missing m.in_reply_to || missing m.content
      then publish_event (nack_of m.message_id ("Missing fields: " <> join (missing_fields m))) s
      else reply_to m (given_field m.in_reply_to) (given_field m.content) s
