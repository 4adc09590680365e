-- ===== src/Messages.antt =====
-- src/vumi2/messages.py: the enumerations, `Message`, `Event` and `Message.reply`. A `datetime` is
-- a number of microseconds; the clock and `generate_message_id` are arguments. The metadata
-- dictionaries hold values of the type `Value`.
pub mod Value
pub mod Laws
pub mod Timestamps
use vumi.Prelude.{
  ℕ, ◌≡◌, String, Bool, true, false, Option, none, some, List, [], ◌∷◌, map, Result, ok, err,
  type_error, value_error, validation_error, ◌>>=◌, ◌==◌, string_eq, contains, if◌then◌else◌,
}
use Value.{Fields, Value as Json, end, null, str}

pub data Session : Type 0 where
  none_ new resume close : Session

pub data TransportType : Type 0 where
  http_api irc telnet twitter sms ussd xmpp mxit wechat : TransportType

pub data AddressType : Type 0 where
  irc_nickname twitter_handle msisdn gtalk_id jabber_id mxit_id wechat_id : AddressType

pub data EventType : Type 0 where
  ack nack delivery_report : EventType

pub data DeliveryStatus : Type 0 where
  pending failed delivered : DeliveryStatus

pub record Message : Type 0 where
  pub to_addr : String
  pub from_addr : String
  pub transport_name : String
  pub transport_type : TransportType
  pub message_version : String
  pub message_type : String
  pub timestamp : ℕ
  pub routing_metadata : Fields
  pub helper_metadata : Fields
  pub message_id : String
  pub in_reply_to : Option String
  pub provider : Option String
  pub session_event : Session
  pub content : Option String
  pub transport_metadata : Fields
  pub group : Option String
  pub to_addr_type : Option AddressType
  pub from_addr_type : Option AddressType

-- `Message(to_addr, from_addr, transport_name, transport_type)`: the defaults of the other fields,
-- with the two factories' results.
unfoldable pub new_message : ℕ → String → String → String → String → TransportType → Message
new_message now id to_addr from_addr transport_name transport_type = record {
  to_addr = to_addr;
  from_addr = from_addr;
  transport_name = transport_name;
  transport_type = transport_type;
  message_version = "20110921";
  message_type = "user_message";
  timestamp = now;
  routing_metadata = end;
  helper_metadata = end;
  message_id = id;
  in_reply_to = none;
  provider = none;
  session_event = none_;
  content = none;
  transport_metadata = end;
  group = none;
  to_addr_type = none;
  from_addr_type = none;
}

pub record Event : Type 0 where
  pub user_message_id : String
  pub event_type : EventType
  pub message_version : String
  pub message_type : String
  pub timestamp : ℕ
  pub routing_metadata : Fields
  pub helper_metadata : Fields
  pub transport_metadata : Option Fields
  pub event_id : String
  pub sent_message_id : Option String
  pub nack_reason : Option String
  pub delivery_status : Option DeliveryStatus

abbrev pub or_raise {ℓ} : {A : Type ℓ} → Option A → Result (Unit {0})
or_raise none = err value_error
or_raise (some a) = ok tt

-- `_check_event_type`
unfoldable pub check_event_type : Event → Result (Unit {0})
check_event_type e = elim e.event_type [
  | ack ↦ or_raise e.sent_message_id
  | nack ↦ or_raise e.nack_reason
  | delivery_report ↦ or_raise e.delivery_status
]

-- `Event(user_message_id, event_type, …)`: the defaults, the given fields, then the validator.
unfoldable pub new_event :
    ℕ
    → String
    → String
    → EventType
    → (sent_message_id nack_reason : Option String) → Option DeliveryStatus
    → Fields
    → Result Event
unfolding check_event_type
new_event now id user_message_id event_type sent_message_id nack_reason delivery_status metadata =
    let e : Event = record {
      user_message_id = user_message_id;
      event_type = event_type;
      message_version = "20110921";
      message_type = "event";
      timestamp = now;
      routing_metadata = end;
      helper_metadata = end;
      transport_metadata = some metadata;
      event_id = id;
      sent_message_id = sent_message_id;
      nack_reason = nack_reason;
      delivery_status = delivery_status;
    } in
    check_event_type e >>= λ _. ok e

-- A keyword argument of `reply` (of `Message` itself, once the call gets there). `other` is a name
-- that `Message` does not have.
pub data Kwarg : Type 0 where
  to_addr from_addr transport_name message_version message_type message_id : String → Kwarg
  transport_type : TransportType → Kwarg
  timestamp : ℕ → Kwarg
  routing_metadata helper_metadata transport_metadata : Fields → Kwarg
  in_reply_to provider group : Option String → Kwarg
  to_addr_type from_addr_type : Option AddressType → Kwarg
  other : String → Kwarg

abbrev pub name : Kwarg → String
name (to_addr _) = "to_addr"
name (from_addr _) = "from_addr"
name (transport_name _) = "transport_name"
name (message_version _) = "message_version"
name (message_type _) = "message_type"
name (message_id _) = "message_id"
name (transport_type _) = "transport_type"
name (timestamp _) = "timestamp"
name (routing_metadata _) = "routing_metadata"
name (helper_metadata _) = "helper_metadata"
name (transport_metadata _) = "transport_metadata"
name (in_reply_to _) = "in_reply_to"
name (provider _) = "provider"
name (group _) = "group"
name (to_addr_type _) = "to_addr_type"
name (from_addr_type _) = "from_addr_type"
name (other n) = n

-- One entry of `fields.update(kwargs)`, as `Message(**fields)` takes it.
unfoldable pub update : Kwarg → Message → Result Message
update (to_addr v) m = ok (record m { to_addr = v })
update (from_addr v) m = ok (record m { from_addr = v })
update (transport_name v) m = ok (record m { transport_name = v })
update (message_version v) m = ok (record m { message_version = v })
update (message_type v) m = ok (record m { message_type = v })
update (message_id v) m = ok (record m { message_id = v })
update (transport_type v) m = ok (record m { transport_type = v })
update (timestamp v) m = ok (record m { timestamp = v })
update (routing_metadata v) m = ok (record m { routing_metadata = v })
update (helper_metadata v) m = ok (record m { helper_metadata = v })
update (transport_metadata v) m = ok (record m { transport_metadata = v })
update (in_reply_to v) m = ok (record m { in_reply_to = v })
update (provider v) m = ok (record m { provider = v })
update (group v) m = ok (record m { group = v })
update (to_addr_type v) m = ok (record m { to_addr_type = v })
update (from_addr_type v) m = ok (record m { from_addr_type = v })
update (other _) m = err type_error

unfoldable pub update_all : List Kwarg → Message → Result Message
unfolding update
update_all [] m = ok m
update_all (k ∷ ks) m = update k m >>= λ m'. update_all ks m'

-- `Session(value)`, as the structuring of the field `session_event` calls it.
unfoldable pub session_of : (default : Session) → Option Json → Result Session
session_of default none = ok default
session_of default (some null) = ok none_
session_of default (some (str s)) =
    if s == "new"
    then ok new
    else if s == "resume"
    then ok resume
    else if s == "close"
    then ok close
    else err validation_error
session_of default (some _) = err validation_error

-- The names that `reply` refuses. Two of them are one text: a comma is missing in the source.
abbrev pub protected_names : List String
protected_names =
    "to_addr" ∷ "from_addr" ∷ "group" ∷ "in_reply_to" ∷ "providertransport_name" ∷ "transport_type"
    ∷ "transport_metadata" ∷ []

-- `for f in [...]: if f in kwargs: raise TypeError`
unfoldable pub any_protected : List String → List String → Bool
any_protected [] names = false
any_protected (f ∷ fs) names = if contains names f then true else any_protected fs names

-- `fields` before `fields.update(kwargs)`, and the defaults that `Message(**fields)` adds.
unfoldable pub reply_fields : Message → (now : ℕ) (id : String) → Option String → Session → Message
unfolding new_message
reply_fields m now id content session_event =
    record (new_message now id m.from_addr m.to_addr m.transport_name m.transport_type) {
      content = content;
      session_event = session_event;
      group = m.group;
      in_reply_to = some m.message_id;
      provider = m.provider;
      transport_metadata = m.transport_metadata;
    }

unfoldable pub reply :
    Message → (now : ℕ) (id : String) → Option String → Session → List Kwarg → Result Message
unfolding any_protected update_all reply_fields
reply m now id content session_event kwargs =
    if any_protected protected_names (map name kwargs)
    then err type_error
    else update_all kwargs (reply_fields m now id content session_event)
