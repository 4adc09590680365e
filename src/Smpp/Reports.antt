-- ===== src/Smpp/Reports.antt =====
-- `DeliveryReportProcesser` of src/vumi2/transports/smpp/processors.py: a `deliver_sm` that
-- reports on a message sent earlier becomes an event. The cache is the state; the configured
-- regular expression is an argument, which gives the groups `id` and `stat` of a match.
pub mod Laws
pub mod Regex
pub mod Parsing
pub mod Standard
use vumi.Prelude.{
  ℕ, String, Bool, true, false, Option, none, some, List, [], ◌∷◌, Result, ok, err, value_error,
  ◌>>=◌, ◌==◌, string_eq, if◌then◌else◌,
}
use vumi.Prelude.Dict
use vumi.Messages.{Event, new_event, delivery_report, DeliveryStatus, pending, failed, delivered}
use vumi.Messages.Value.{Fields, end, field, str}
use vumi.Smpp.Pdu.{Bytes, EsmClassType, DeliverSm, PythonCodecs}
use vumi.Smpp.Cache.{SmppCache, get_smpp_message_id, delete_smpp_message_id}
use vumi.Smpp.Deliver.{given}

-- `DELIVERY_REPORT_STATUS_MAPPING`
abbrev pub default_status_mapping : List (String × String)
default_status_mapping =
    ("ENROUTE", "pending")
    ∷ ("DELIVERED", "delivered")
    ∷ ("EXPIRED", "failed")
    ∷ ("DELETED", "failed")
    ∷ ("UNDELIVERABLE", "failed")
    ∷ ("ACCEPTED", "delivered")
    ∷ ("UNKNOWN", "pending")
    ∷ ("REJECTED", "failed")
    ∷ ("DELIVRD", "delivered")
    ∷ ("REJECTD", "failed")
    ∷ ("FAILED", "failed")
    ∷ ("0", "delivered")
    ∷ []

-- `DeliveryReportProcessorConfig`, with the compiled expression.
pub record Config : Type 0 where
  pub regex : String → Option (String × String)
  pub status_mapping : List (String × String)

-- `DeliveryStatus(value)`
unfoldable pub delivery_status : String → Result DeliveryStatus
delivery_status value =
    if value == "pending"
    then ok pending
    else if value == "failed"
    then ok failed
    else if value == "delivered"
    then ok delivered
    else err value_error

abbrev pub or_pending : Option String → String
or_pending none = "pending"
or_pending (some s) = s

-- `DeliveryStatus(self.config.status_mapping.get(smpp_status, "pending"))`
unfoldable pub status_of : Config → String → Result DeliveryStatus
unfolding delivery_status Dict.lookup
status_of config smpp_status =
    delivery_status (or_pending (Dict.lookup smpp_status config.status_mapping))

-- `status in (DeliveryStatus.DELIVERED, DeliveryStatus.FAILED)`
abbrev pub is_final : DeliveryStatus → Bool
is_final pending = false
is_final _ = true

-- `if not vumi_message_id`: a missing id and an empty one.
abbrev pub known : Option String → Option String
known none = none
known (some id) = if id == "" then none else some id

abbrev pub report_event :
    (now : ℕ) (event_id vumi_message_id smpp_status : String) → DeliveryStatus → Result Event
report_event now event_id vumi_message_id smpp_status status =
    new_event now event_id vumi_message_id delivery_report none none (some status)
      (field "smpp_delivery_status" (str smpp_status) end)

-- What a call returns beside the cache: an exception, or an event if there is one.
abbrev pub Reported : Type 0
Reported = Result (Option Event) × SmppCache

-- The lines of `_create_event` from the lookup on.
unfoldable pub create_known :
    (now : ℕ) (event_id smpp_message_id smpp_status : String)
    → DeliveryStatus
    → Option String
    → SmppCache
    → Reported
create_known now event_id smpp_message_id smpp_status status none c = (ok none, c)
create_known now event_id smpp_message_id smpp_status status (some vumi_message_id) c = (
  report_event now event_id vumi_message_id smpp_status status >>= λ e. ok (some e),
  if is_final status then delete_smpp_message_id now smpp_message_id c else c,
)

unfoldable pub create_event :
    Config → (now : ℕ) (event_id smpp_message_id smpp_status : String) → SmppCache → Reported
create_event config now event_id smpp_message_id smpp_status c =
    elim (status_of config smpp_status) [
      | err e ↦ (err e, c)
      | ok status ↦
          let (found, c') = get_smpp_message_id now smpp_message_id c in
          create_known now event_id smpp_message_id smpp_status status (known found) c'
    ]

-- `(False, None)`, or `(True, event)`.
pub data Handled : Type 0 where
  not_handled : Handled
  handled : Option Event → Handled

abbrev pub Handles : Type 0
Handles = Result Handled × SmppCache

-- `return True, await self._create_event(...)`
abbrev pub as_handled : Reported → Handles
as_handled (ok event, c) = (ok (handled event), c)
as_handled (err e, c) = (err e, c)

-- One round of the loop in `handle_deliver_sm`: the next function is asked if this one did not
-- handle the PDU.
abbrev pub or_else : Handles → (SmppCache → Handles) → Handles
or_else (ok not_handled, c) next = next c
or_else (ok (handled event), c) next = (ok (handled event), c)
or_else (err e, c) next = (err e, c)

module _ (py : PythonCodecs) (config : Config) (now : ℕ) (event_id : String) where
  -- `_handle_deliver_sm_optional_params`
  unfoldable pub handle_optional_params : DeliverSm → SmppCache → Handles
  unfolding create_event
  handle_optional_params pdu c = elim pdu.receipted_message_id [
    | none ↦ (ok not_handled, c)
    | some id ↦ elim pdu.message_state [
      | none ↦ (ok not_handled, c)
      | some state ↦ elim (py.decode "utf-8" id) [
        | err e ↦ (err e, c)
        | ok smpp_message_id ↦ as_handled (create_event config now event_id smpp_message_id state c)
      ]
    ]
  ]

  -- What the two functions below do with `pdu.params["short_message"].decode("latin1")`.
  unfoldable pub handle_content : Result String → SmppCache → Handles
  unfolding create_event
  handle_content (err e) c = (err e, c)
  handle_content (ok content) c = elim (config.regex content) [
    | none ↦ (ok not_handled, c)
    | some (id, stat) ↦ as_handled (create_event config now event_id id stat c)
  ]

  abbrev pub content_of : DeliverSm → Result String
  content_of pdu = given pdu.short_message >>= λ text. py.decode "latin1" text

  -- `_handle_deliver_sm_body`
  unfoldable pub handle_body : DeliverSm → SmppCache → Handles
  unfolding handle_content
  handle_body pdu c = handle_content (content_of pdu) c

  -- `_handle_deliver_sm_esm_class`: the same for a type that is not the default.
  unfoldable pub handle_esm_class : DeliverSm → SmppCache → Handles
  unfolding handle_content
  handle_esm_class pdu c = elim pdu.esm_class [
    | EsmClassType.default ↦ (ok not_handled, c)
    | EsmClassType.other_type ↦ handle_content (content_of pdu) c
  ]

  unfoldable pub handle_deliver_sm : DeliverSm → SmppCache → Handles
  unfolding handle_optional_params handle_body handle_esm_class
  handle_deliver_sm pdu c =
      or_else (handle_optional_params pdu c)
        (λ c'. or_else (handle_esm_class pdu c') (λ c''. handle_body pdu c''))
