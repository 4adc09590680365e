-- ===== src/StaticReply.antt =====
-- `StaticReplyApplication` of src/vumi2/applications/static_reply/static_reply.py. What the
-- connector publishes is a list.
use vumi.Prelude.{ℕ, String, some, List, [], ◌∷◌, ◌++◌, ◌≡◌, refl, Result, ok, err}
use vumi.Messages.{Message, close, reply, reply_fields, new_message}

unfoldable pub handle_inbound_message :
    (reply_text : String) (now : ℕ) (id : String)
    → Message
    → List Message
    → Result (Unit {0}) × List Message
unfolding reply
handle_inbound_message reply_text now id message published =
    elim (reply message now id (some reply_text) close []) [
      | err e ↦ (err e, published)
      | ok reply_msg ↦ (ok tt, published ++ (reply_msg ∷ []))
    ]

-- Every inbound message is answered by one message, to its sender, with the configured text and
-- the end of the session.
pub handle_inbound_message_replies :
    (reply_text : String) (now : ℕ) (id : String) (m : Message) (published : List Message)
    → (r : Message) × (handle_inbound_message reply_text now id m published
        ≡ (ok tt, published ++ (r ∷ [])))
      × (r.to_addr ≡ m.from_addr)
      × (r.from_addr ≡ m.to_addr)
      × (r.content ≡ some reply_text)
      × (r.session_event ≡ close)
      × (r.in_reply_to ≡ some m.message_id)
unfolding handle_inbound_message reply reply_fields new_message
handle_inbound_message_replies reply_text now id m published =
    (reply_fields m now id (some reply_text) close, refl, refl, refl, refl, refl, refl)
