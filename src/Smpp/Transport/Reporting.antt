-- ===== src/Smpp/Transport/Reporting.antt =====
-- A delivery report from the server to the application, through client.py, processors.py and
-- smpp.py of src/vumi2/transports/smpp and src/vumi2/connectors.py.
use Prim.Native.String.{count}
use vumi.Prelude.{
  ℕ, ◌≤◌, ◌≡◌, ◌≢◌, refl, ap, ◌∙◌, String, List, [], ◌∷◌, ◌++◌, map, true, Option, none, some,
  Result, ok, string_eq,
}
use vumi.Prelude.Dict.{NodupKeys, lookup}
use vumi.Messages.{Event, DeliveryStatus, delivery_report}
use vumi.Cache.TimeoutDict.Expiry.{IsValid}
use vumi.Cache.TimeoutDict.Laws.{view}
use vumi.Connectors.Base.{Publication, setup_receive_outbound}
use vumi.Connectors.Base
use vumi.Connectors.Delivering.{Handlers, system}
use vumi.Smpp.Pdu.{DeliverSm, PythonCodecs}
use vumi.Smpp.Cache.{SmppCache}
use vumi.Smpp.Deliver
use vumi.Smpp.Reports
use vumi.Smpp.Reports.{content_of, status_of, handled, Handles}
use vumi.Smpp.Reports.Regex.{no_space, capital}
use vumi.Smpp.Reports.Parsing.{all_in, Optional, IsOptional, report}
use vumi.Smpp.Reports.Standard.{default_config, handle_deliver_sm-report}
use vumi.Smpp.Client.{Client, Published, event, respond}
use vumi.Smpp.Client.Handlers.{
  deliver_sm, handle_pdu, handle_deliver_sm, process_deliver_sm, answer_deliver_sm,
}
use vumi.Smpp.Transport.{handle_all, deliveries, delivery, handle_all-delivered}

module _ (py : PythonCodecs) (sm_config : Deliver.Config) (now : ℕ) (id : String) where
  processed :
      (dr_config : Reports.Config) (pdu : DeliverSm) (cache : SmppCache) (e : Event)
      → (Reports.handle_deliver_sm py dr_config now id pdu cache).0 ≡ ok (handled (some e))
      → (process_deliver_sm py sm_config dr_config now id pdu cache).0 ≡ ok (some (event e))
  unfolding process_deliver_sm
  processed dr_config pdu cache e h = rw (h, process_deliver_sm) refl

  answered :
      (dr_config : Reports.Config) (seq_num : ℕ) (r : Result (Option Published)) (e : Event)
      (cache : SmppCache) (c : Client)
      → r ≡ ok (some (event e))
      → answer_deliver_sm py sm_config dr_config now id seq_num r cache c ≡ (
        ok tt,
        record c {
          smpp_cache = cache;
          published = c.published ++ (event e ∷ []);
          sent = c.sent ++ (respond "DeliverSMResp" seq_num "ESME_ROK" ∷ []);
        },
      )
  unfolding answer_deliver_sm
  answered dr_config seq_num r e cache c h = rw (h, answer_deliver_sm) refl

  -- What the client is after a report that becomes an event.
  reported :
      (dr_config : Reports.Config) (pdu : DeliverSm) (c : Client) (e : Event)
      → (Reports.handle_deliver_sm py dr_config now id pdu c.smpp_cache).0 ≡ ok (handled (some e))
      → handle_pdu py sm_config dr_config now id (deliver_sm pdu) c ≡ (
        ok tt,
        record c {
          smpp_cache = (process_deliver_sm py sm_config dr_config now id pdu c.smpp_cache).1;
          published = c.published ++ (event e ∷ []);
          sent = c.sent ++ (respond "DeliverSMResp" pdu.seq_num "ESME_ROK" ∷ []);
        },
      )
  unfolding handle_pdu handle_deliver_sm
  reported dr_config pdu c e h =
      answered dr_config pdu.seq_num
        (process_deliver_sm py sm_config dr_config now id pdu c.smpp_cache).0 e
        (process_deliver_sm py sm_config dr_config now id pdu c.smpp_cache).1 c
        (processed dr_config pdu c.smpp_cache e h)

  -- The server reports, in a PDU without `receipted_message_id` whose `short_message` is, in
  -- Latin-1, `id:… sub:… dlvrd:… submit date:… done date:… stat:… err:… text:…` with any of the
  -- fields `sub`, `dlvrd`, `submit date`, `done date` and `err` left out, on an id that the cache
  -- has for a message. The client answers the PDU with `ESME_ROK`, and one event,
  -- and nothing else, reaches the application whose connector has the name of the transport, at
  -- its `event_handler`: a delivery report on that message, with the status that the default
  -- mapping gives for the state, and `pending` for a state that the mapping does not have. The id
  -- has at most 65 characters and no space, the state is five to seven capitals, the dates that
  -- are there are digits, the other fields have no space and are not empty, the cache is valid, the id of the message is not empty, nothing has been handed over before, and no two
  -- applications and no two transports share a connector name.
  pub report_delivered :
      (apps : List (String × Handlers)) (ts : List (String × String)) (name : String) (h : Handlers)
      (k : String) (pdu : DeliverSm) (c : Client) (o : Optional)
      (smpp_id stat text vumi_id : String) (status : DeliveryStatus)
      → NodupKeys apps
      → NodupKeys ts
      → lookup name apps ≡ some h
      → lookup name ts ≡ some k
      → c.published ≡ []
      → pdu.receipted_message_id ≡ none
      → content_of py default_config now id pdu ≡ ok (report o smpp_id stat text)
      → IsOptional o
      → all_in no_space smpp_id ≡ true
      → count smpp_id ≤ 65
      → all_in capital stat ≡ true
      → 5 ≤ count stat
      → count stat ≤ 7
      → IsValid now c.smpp_cache.smpp_msg_id
      → view now smpp_id c.smpp_cache.smpp_msg_id ≡ some vumi_id
      → vumi_id ≢ ""
      → status_of default_config stat ≡ ok status
      → let (result, c') = handle_pdu py sm_config default_config now id (deliver_sm pdu) c in
        (back : List Publication) × (e : Event) × (result ≡ ok tt)
        × (c'.sent ≡ c.sent ++ (respond "DeliverSMResp" pdu.seq_num "ESME_ROK" ∷ []))
        × (handle_all name (setup_receive_outbound name k) c'.published [] ≡ ok back)
        × (deliveries (system apps ts) back ≡ (h.event_handler, Base.event e) ∷ [])
        × (e.user_message_id ≡ vumi_id)
        × (e.event_type ≡ delivery_report)
        × (e.delivery_status ≡ some status)
  report_delivered apps ts name h k pdu c o smpp_id stat text vumi_id status ua ut ha ht empty
        none_given content parts i short s lo hi valid shown full mapped =
      let (e, made, who, kind, same) =
        handle_deliver_sm-report py now id pdu c.smpp_cache o smpp_id stat text vumi_id status
          none_given content parts i short s lo hi valid shown full mapped in
      let run = reported default_config pdu c e made in
      let c' = (handle_pdu py sm_config default_config now id (deliver_sm pdu) c).1 in
      let over : c'.published ≡ event e ∷ [] =
        ap (λ (r : Result (Unit {0}) × Client). r.1.published) run
        ∙ ap (λ ps. ps ++ (event e ∷ [])) empty in
      let (back, (published, got)) =
        handle_all-delivered apps ts name h k c'.published ua ut ha ht in
      (
        back,
        e,
        ap (λ (r : Result (Unit {0}) × Client). r.0) run,
        ap (λ (r : Result (Unit {0}) × Client). r.1.sent) run,
        published,
        got ∙ ap (map (delivery name h)) over,
        who,
        kind,
        same,
      )
