-- ===== src/Smpp/Reports/Standard.antt =====
-- `DeliveryReportProcesser` of src/vumi2/transports/smpp/processors.py with its default
-- configuration, on reports as SMPP 3.4 writes them.
use Prim.Native.String.{count}
use vumi.Prelude.{
  ℕ, ◌≤◌, ◌≡◌, ◌≢◌, refl, ap, ◌∙◌, String, true, Option, none, some, Result, ok, err,
}
use vumi.Messages.{Event, DeliveryStatus, delivery_report}
use vumi.Cache.TimeoutDict.Expiry.{IsValid}
use vumi.Cache.TimeoutDict.Laws.{view}
use vumi.Smpp.Cache.{SmppCache}
use vumi.Smpp.Pdu.{DeliverSm, PythonCodecs}
use vumi.Smpp.Reports.{
  Config, default_status_mapping, status_of, create_event, Handled, Handles, handled, as_handled,
  handle_deliver_sm, handle_optional_params, handle_body, handle_content, content_of,
}
use vumi.Smpp.Reports.Laws.{esm_class_irrelevant, create_event_known}
use vumi.Smpp.Reports.Regex.{match_default, no_space, capital}
use vumi.Smpp.Reports.Parsing.{all_in, Optional, IsOptional, report, match_default-report}

-- The defaults of `DeliveryReportProcessorConfig`.
abbrev pub default_config : Config
default_config = record { regex = match_default; status_mapping = default_status_mapping }

module _ (py : PythonCodecs) (now : ℕ) (event_id : String) where
  by_body :
      (pdu : DeliverSm) (c : SmppCache)
      → pdu.receipted_message_id ≡ none
      → handle_deliver_sm py default_config now event_id pdu c
        ≡ handle_content py default_config now event_id
            (content_of py default_config now event_id pdu)
            c
  unfolding handle_optional_params handle_body
  by_body pdu c h =
      esm_class_irrelevant py default_config now event_id pdu c
      ∙ rw (h, handle_optional_params) refl

  content_read :
      (content id stat : String) (c : SmppCache)
      → match_default content ≡ some (id, stat)
      → handle_content py default_config now event_id (ok content) c
        ≡ as_handled (create_event default_config now event_id id stat c)
  unfolding handle_content
  content_read content id stat c h = rw (h, handle_content) refl

  -- The result of `as_handled`.
  abbrev as_result : Result (Option Event) → Result Handled
  as_result (ok event) = ok (handled event)
  as_result (err e) = err e

  handled_event :
      (r : Result (Option Event) × SmppCache) (e : Event)
      → r.0 ≡ ok (some e)
      → (as_handled r).0 ≡ ok (handled (some e))
  handled_event (ok o, c) e h = ap as_result h
  handled_event (err x, c) e h = ap as_result h

  -- A report with any of the optional fields, in a PDU without `receipted_message_id`, is a
  -- delivery report on
  -- the message that the cache has under its id, with the status that the default mapping gives for
  -- its state, and `pending` for a state that the mapping does not have. The id has at most 65
  -- characters and no space, the state is five to seven capitals, the cache is valid, and the id of
  -- the message is not empty.
  pub handle_deliver_sm-report :
      (pdu : DeliverSm) (c : SmppCache) (o : Optional) (id stat text vumi_id : String)
      (status : DeliveryStatus)
      → pdu.receipted_message_id ≡ none
      → content_of py default_config now event_id pdu ≡ ok (report o id stat text)
      → IsOptional o
      → all_in no_space id ≡ true
      → count id ≤ 65
      → all_in capital stat ≡ true
      → 5 ≤ count stat
      → count stat ≤ 7
      → IsValid now c.smpp_msg_id
      → view now id c.smpp_msg_id ≡ some vumi_id
      → vumi_id ≢ ""
      → status_of default_config stat ≡ ok status
      → (e : Event) × ((handle_deliver_sm py default_config now event_id pdu c).0
          ≡ ok (handled (some e)))
        × (e.user_message_id ≡ vumi_id)
        × (e.event_type ≡ delivery_report)
        × (e.delivery_status ≡ some status)
  handle_deliver_sm-report pdu c o id stat text vumi_id status none_given content parts i short s lo
        hi h shown full mapped =
      let (e, made, who, kind, same) =
        create_event_known default_config now event_id id stat vumi_id status c h shown full
          mapped in
      (
        e,
        ap (λ (r : Handles). r.0)
              (by_body pdu c none_given
                ∙ (ap (λ r. handle_content py default_config now event_id r c) content
                    ∙ content_read _ id stat c
                        (match_default-report o id stat text parts i short s lo hi)))
            ∙ handled_event (create_event default_config now event_id id stat c) e made,
        who,
        kind,
        same,
      )
