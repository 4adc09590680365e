-- ===== src/Smpp/Reports/Laws.antt =====
-- Which PDUs are reports, and what a report does to the ids
-- (src/vumi2/transports/smpp/processors.py).
use vumi.Prelude.{
  ℕ, ◌≤◌, ◌≡◌, ◌≢◌, refl, String, Option, none, some, Result, ok, err, ◌>>=◌, arith, string_eq, ◌∙◌,
  ap, fun_ext, Option-cases, inl, inr,
}
use text.Mathlib.TextEquality.{eq_iff}
use vumi.Messages.{Event, DeliveryStatus, delivery_report, new_event, pending}
use vumi.Smpp.Pdu.{DeliverSm, PythonCodecs, EsmClassType}
use vumi.Cache.TimeoutDict.Expiry.{IsValid}
use vumi.Cache.TimeoutDict.Laws.{view}
use vumi.Smpp.Cache.{SmppCache, get_smpp_message_id}
use vumi.Smpp.Cache.Ids.{get_twice, get-eq-view, get-IsValid, get-delete}
use vumi.Smpp.Reports.{
  Config, status_of, known, report_event, create_known, create_event, Handles, not_handled,
  as_handled, handle_optional_params, handle_body, handle_esm_class, or_else, handle_deliver_sm,
  handle_content, content_of,
}

or_else-as_handled :
    (r : Result (Option Event) × SmppCache) (next : SmppCache → Handles)
    → or_else (as_handled r) next ≡ as_handled r
or_else-as_handled (ok e, c) next = refl
or_else-as_handled (err x, c) next = refl

module _ (py : PythonCodecs) (config : Config) (now : ℕ) (event_id : String) where
  handle_content_twice :
      (r : Result String) (c : SmppCache)
      → or_else
          (handle_content py config now event_id r c)
          (handle_content py config now event_id r)
        ≡ handle_content py config now event_id r c
  unfolding handle_content
  handle_content_twice (err e) c = refl
  handle_content_twice (ok content) c = elim (Option-cases (config.regex content)) [
    | inl e ↦ rw (e, handle_content)
    | inr ((id, stat), e) ↦ rw (e, handle_content) (or_else-as_handled _ _)
  ]

  by_class :
      (pdu : DeliverSm) (c : SmppCache)
      → or_else
          (handle_esm_class py config now event_id pdu c)
          (handle_body py config now event_id pdu)
        ≡ handle_body py config now event_id pdu c
  unfolding handle_esm_class handle_body
  by_class pdu c = go pdu.esm_class
    where
      go :
          (t : EsmClassType)
          → or_else
              (elim t [
                | EsmClassType.default ↦ (ok not_handled, c)
                | EsmClassType.other_type ↦
                    handle_content py config now event_id (content_of py config now event_id pdu) c
              ])
              (handle_content py config now event_id (content_of py config now event_id pdu))
            ≡ handle_content py config now event_id (content_of py config now event_id pdu) c
      go EsmClassType.default = refl
      go EsmClassType.other_type = handle_content_twice _ c

  -- The test of the `esm_class` decides nothing: a PDU is handled as if it had the default class,
  -- by its optional parameters or else by its body.
  pub esm_class_irrelevant :
      (pdu : DeliverSm) (c : SmppCache)
      → handle_deliver_sm py config now event_id pdu c
        ≡ or_else
            (handle_optional_params py config now event_id pdu c)
            (handle_body py config now event_id pdu)
  unfolding handle_deliver_sm
  esm_class_irrelevant pdu c =
      ap (or_else (handle_optional_params py config now event_id pdu c)) (fun_ext (by_class pdu))

create_event_lem :
    (config : Config) (now : ℕ) (event_id smpp_id smpp_status : String) (status : DeliveryStatus)
    (c : SmppCache)
    → status_of config smpp_status ≡ ok status
    → create_event config now event_id smpp_id smpp_status c
      ≡ create_known now event_id smpp_id smpp_status status
          (known (get_smpp_message_id now smpp_id c).0)
          (get_smpp_message_id now smpp_id c).1
unfolding create_event
create_event_lem config now event_id smpp_id smpp_status status c m = rw (m, create_event)

known_full : (id : String) → id ≢ "" → known (some id) ≡ some id
known_full id n = ground (arith, eq_iff id "")

report_event_lem :
    (now : ℕ) (event_id vumi_id smpp_status : String) (status : DeliveryStatus)
    → (e : Event) × (report_event now event_id vumi_id smpp_status status ≡ ok e)
      × (e.user_message_id ≡ vumi_id)
      × (e.event_type ≡ delivery_report)
      × (e.delivery_status ≡ some status)
unfolding new_event
report_event_lem now event_id vumi_id smpp_status status = (_, refl, refl, refl, refl)

create_known_event :
    (now : ℕ) (event_id smpp_id smpp_status vumi_id : String) (status : DeliveryStatus)
    (c : SmppCache) (e : Event)
    → report_event now event_id vumi_id smpp_status status ≡ ok e
    → (create_known now event_id smpp_id smpp_status status (some vumi_id) c).0 ≡ ok (some e)
unfolding create_known
create_known_event now event_id smpp_id smpp_status vumi_id status c e r =
    ap (λ (x : Result Event). x >>= λ v. ok (some v)) r

-- A report on an id for which a valid cache shows a message id that is not empty, with a status
-- that the mapping knows, makes one event: a delivery report on that message with that status.
pub create_event_known :
    (config : Config) (now : ℕ) (event_id smpp_id smpp_status vumi_id : String)
    (status : DeliveryStatus) (c : SmppCache)
    → IsValid now c.smpp_msg_id
    → view now smpp_id c.smpp_msg_id ≡ some vumi_id
    → vumi_id ≢ ""
    → status_of config smpp_status ≡ ok status
    → (e : Event) × ((create_event config now event_id smpp_id smpp_status c).0 ≡ ok (some e))
      × (e.user_message_id ≡ vumi_id)
      × (e.event_type ≡ delivery_report)
      × (e.delivery_status ≡ some status)
create_event_known config now event_id smpp_id smpp_status vumi_id status c h shown full mapped =
    let (e, made, who, kind, same) = report_event_lem now event_id vumi_id smpp_status status in
    (
      e,
      ap (λ (r : Result (Option Event) × SmppCache). r.0)
            (create_event_lem config now event_id smpp_id smpp_status status c mapped)
          ∙ ap
              (λ (i : Option String).
                (create_known now event_id smpp_id smpp_status status i
                  (get_smpp_message_id now smpp_id c).1).0)
              (ap known (get-eq-view now smpp_id c h ∙ shown) ∙ known_full vumi_id full)
          ∙ create_known_event now event_id smpp_id smpp_status vumi_id status _ e made,
      who,
      kind,
      same,
    )

create_known_hides :
    (now later : ℕ) (event_id smpp_id smpp_status : String) (s : DeliveryStatus)
    (id : Option String) (c : SmppCache)
    → now ≤ later
    → IsValid now c.smpp_msg_id
    → (get_smpp_message_id later smpp_id c).0 ≡ none
    → (get_smpp_message_id later smpp_id (create_known now event_id smpp_id smpp_status s id c).1).0
      ≡ none
unfolding create_known
create_known_hides now later event_id smpp_id smpp_status s none c b h g = g
create_known_hides now later event_id smpp_id smpp_status pending (some id) c b h g = g
create_known_hides now later event_id smpp_id smpp_status _ (some id) c b h g =
    get-delete now smpp_id c h later b

-- On a valid cache, a report with any status that the mapping knows uses the id up, also one that
-- is not final: a second report on the same id makes no event, whatever its status.
pub create_event_twice :
    (config : Config) (now later : ℕ) (event_id event_id' smpp_id smpp_status smpp_status' : String)
    (s s' : DeliveryStatus) (c : SmppCache)
    → now ≤ later
    → IsValid now c.smpp_msg_id
    → status_of config smpp_status ≡ ok s
    → status_of config smpp_status' ≡ ok s'
    → (create_event config later event_id' smpp_id smpp_status'
        (create_event config now event_id smpp_id smpp_status c).1).0
      ≡ ok none
unfolding create_known
create_event_twice config now later event_id event_id' smpp_id smpp_status smpp_status' s s' c b h m
      m' =
    ap (λ (r : Result (Option Event) × SmppCache). r.0)
      (create_event_lem config later event_id' smpp_id smpp_status' s' _ m')
    ∙ rw hidden
  where
    hidden :
        (get_smpp_message_id later smpp_id
          (create_event config now event_id smpp_id smpp_status c).1).0
        ≡ none
    hidden = rw (create_event_lem config now event_id smpp_id smpp_status s c m) (
        create_known_hides now later event_id smpp_id smpp_status s _ _ b
          (get-IsValid now smpp_id c h) (get_twice now later smpp_id c b h).0)
