-- ===== src/Smpp/Client/Report.antt =====
-- From `send_vumi_message` (src/vumi2/transports/smpp/client.py) to the delivery report that
-- `DeliveryReportProcesser` (src/vumi2/transports/smpp/processors.py) makes of it.
use vumi.Prelude.{
  ℕ, String, false, ◌≤◌, ◌≡◌, ◌≢◌, refl, ◌∙◌, some, [], ◌∷◌, ok, string_eq, beq_self,
}
use vumi.Messages.{Message, Event, DeliveryStatus, delivery_report}
use vumi.Cache.TimeoutDict.{is_expired}
use vumi.Cache.TimeoutDict.Expiry.{IsValid}
use vumi.Cache.TimeoutDict.Laws.{view-set_item, methods-IsValid, IsValid-later}
use vumi.Smpp.Pdu.{PythonCodecs, SubmitSm}
use vumi.Smpp.Cache.{store_smpp_message_id}
use vumi.Smpp.Reports
use vumi.Smpp.Reports.Laws.{create_event_known}
use vumi.Smpp.Client.{Client, SmppPdu, Answer}
use vumi.Smpp.Client.Acceptance.{accepted}

module _ (py : PythonCodecs) (smpp : SmppPdu) (answer : SubmitSm → Answer) (now : ℕ)
    (event_id : String) where
  -- The first report on the id under which the server accepted the PDU of a message, before the
  -- timeout of the cache has passed and with a status that the mapping knows, becomes a delivery
  -- report on that message. The cache was valid, and the id of the message is not empty.
  pub report_after_send :
      (config : Reports.Config) (m : Message) (pdu : SubmitSm) (id smpp_status : String) (later : ℕ)
      (status : DeliveryStatus) (c : Client)
      → (answer pdu).now ≤ (answer pdu).stamp
      → (answer pdu).stamp ≤ later
      → IsValid (answer pdu).now c.smpp_cache.smpp_msg_id
      → is_expired later c.smpp_cache.smpp_msg_id.timeout (answer pdu).stamp ≡ false
      → m.message_id ≢ ""
      → Reports.status_of config smpp_status ≡ ok status
      → (e : Event) × ((Reports.create_event config later event_id id smpp_status
            (accepted py smpp answer now event_id m ((pdu, id) ∷ []) c).smpp_cache).0
          ≡ ok (some e))
        × (e.user_message_id ≡ m.message_id)
        × (e.event_type ≡ delivery_report)
        × (e.delivery_status ≡ some status)
  unfolding store_smpp_message_id
  report_after_send config m pdu id smpp_status later status c b d h fresh full mapped =
      let a = answer pdu in
      let ids = c.smpp_cache.smpp_msg_id in
      create_event_known config later event_id id smpp_status m.message_id status
        (store_smpp_message_id a.now a.stamp m.message_id id c.smpp_cache)
        (IsValid-later d (methods-IsValid a.now a.stamp id m.message_id ids b h).0)
        (view-set_item a.now a.stamp later id id m.message_id ids b d h
          ∙ rw (beq_self id, fresh) refl)
        full mapped
