-- ===== src/HttpRpc/Replies.antt =====
-- What a reply does to the request that it answers, and what is left behind
-- (src/vumi2/transports/httprpc/http_rpc.py).
use vumi.Prelude.{
  ℕ, String, true, false, ◌||◌, ◌<>◌, ◌≡◌, refl, sym, ap, ◌∙◌, Option, none, some, [], ◌∷◌, ◌++◌,
  ◌==◌, string_eq, beq_self, Result, ok, err, if◌then◌else◌, Bool-cases, Option-cases, inl, inr,
  ◌⊎◌,
}
use mathlib.Core.Path.{subst}
use vumi.Prelude.Dict
use vumi.Messages.{Message, Event, EventType, new_event, ack, nack}
use vumi.HttpRpc.{
  Request, Response, HttpRpc, clean_up, end_request, time_out, publish_event, finish_request,
  missing, missing_fields, join, nack_of, ack_of, reply_to, given_field, handle_outbound_message,
}

-- No key twice in either dict, as it always is.
pub record IsValid (s : HttpRpc) : Type 0 where
  pub requests : Dict.NodupKeys s.requests
  pub results : Dict.NodupKeys s.results

-- Nothing is kept for the request.
abbrev pub Gone : String → HttpRpc → Type 0
Gone id s = (Dict.lookup id s.requests ≡ none) × (Dict.lookup id s.results ≡ none)

clean_up-Gone : (id : String) (s : HttpRpc) → IsValid s → Gone id (clean_up id s)
unfolding clean_up
clean_up-Gone id s h = (
  Dict.lookup-erase id id s.requests h.requests ∙ rw (beq_self id) refl,
  Dict.lookup-erase id id s.results h.results ∙ rw (beq_self id) refl,
)

-- However a request ends, by a reply, by the timeout or by an exception of the wait, nothing is
-- kept for it, where no id stands twice in the two dictionaries.
pub inbound_request-Gone :
    (id : String) (s : HttpRpc)
    → IsValid s
    → Gone id (end_request id s).1 × Gone id (time_out id s).1
unfolding end_request time_out
inbound_request-Gone id s h = (ended, clean_up-Gone id s h)
  where
    ended : Gone id (end_request id s).1
    ended = elim (Option-cases (Dict.lookup id s.results)) [
      | inl e ↦ rw (e, end_request) (clean_up-Gone id s h)
      | inr (r, e) ↦
          rw (e, end_request)
            (clean_up-Gone id (record s { results = Dict.erase id s.results })
              (record {
                requests = h.requests;
                results = Dict.erase-NodupKeys id s.results h.results;
              }))
    ]

module _ (now : ℕ) (event_id : String) where
  abbrev pub IsOn : String → EventType → Event → Type 0
  IsOn id kind e = (e.user_message_id ≡ id) × (e.event_type ≡ kind)

  ack_of_lem : (id : String) → (e : Event) × (ack_of now event_id id ≡ ok e) × IsOn id ack e
  unfolding new_event
  ack_of_lem id = (_, refl, (refl, refl))

  nack_of_lem :
      (id reason : String)
      → (e : Event) × (nack_of now event_id id reason ≡ ok e)
        × IsOn id nack e
        × (e.nack_reason ≡ some reason)
  unfolding new_event
  nack_of_lem id reason = (_, refl, (refl, refl), refl)

  abbrev pub published : Event → HttpRpc → HttpRpc
  published e s = record s { published = s.published ++ (e ∷ []) }

  publish_event_ok :
      (r : Result Event) (e : Event) (s : HttpRpc)
      → r ≡ ok e
      → publish_event r s ≡ (ok tt, published e s)
  unfolding publish_event
  publish_event_ok r e s made = ap (λ (x : Result Event). publish_event x s) made

  -- The state once a request has its reply.
  abbrev pub finished : String → String → HttpRpc → HttpRpc
  finished id content s = record s {
    requests = Dict.erase id s.requests;
    results = Dict.insert id (record { data_ = content; code = 200; headers = [] }) s.results;
    woken = s.woken ++ (id ∷ []);
  }

  finish_request_lem :
      (id content : String) (r : Request) (s : HttpRpc)
      → Dict.lookup id s.requests ≡ some r
      → finish_request id content 200 s ≡ (ok tt, finished id content s)
  unfolding finish_request
  finish_request_lem id content r s e = rw (e, finish_request) refl

  reply_to_open :
      (m : Message) (id content : String) (r : Request) (s : HttpRpc)
      → Dict.lookup id s.requests ≡ some r
      → reply_to now event_id m id content s
        ≡ publish_event (ack_of now event_id m.message_id) (finished id content s)
  unfolding reply_to
  reply_to_open m id content r s e =
      rw (e, reply_to)
        (ap
          (λ (x : Result (Unit {0}) × HttpRpc). elim x.0 [
            | err e ↦ (err e, x.1)
            | ok _ ↦ publish_event (ack_of now event_id m.message_id) x.1
          ])
          (finish_request_lem id content r s e))

  reply_to_unknown :
      (m : Message) (id content : String) (s : HttpRpc)
      → Dict.lookup id s.requests ≡ none
      → reply_to now event_id m id content s
        ≡ publish_event (nack_of now event_id m.message_id "No matching request") s
  unfolding reply_to
  reply_to_unknown m id content s e = rw (e, reply_to) refl

  complete_lem :
      (m : Message) (id content : String) (s : HttpRpc)
      → m.in_reply_to ≡ some id
      → (id == "") ≡ false
      → m.content ≡ some content
      → (content == "") ≡ false
      → handle_outbound_message now event_id m s ≡ reply_to now event_id m id content s
  unfolding handle_outbound_message
  complete_lem m id content s a b c d =
      let run : Option String → Option String → Result (Unit {0}) × HttpRpc = λ i t.
        if missing i || missing t
        then publish_event
            (nack_of now event_id m.message_id ("Missing fields: " <> join (missing_fields m))) s
        else reply_to now event_id m (given_field i) (given_field t) s in
      ap (λ (i : Option String). run i m.content) a
      ∙ ap (λ (t : Option String). run (some id) t) c
      ∙ rw (b, d) refl

  end_request_lem :
      (id : String) (r : Response) (s : HttpRpc)
      → Dict.lookup id s.results ≡ some r
      → (end_request id s).0 ≡ ok r
  unfolding end_request
  end_request_lem id r s e = rw (e, end_request) refl

  incomplete_lem :
      (m : Message) (s : HttpRpc)
      → (missing m.in_reply_to || missing m.content) ≡ true
      → handle_outbound_message now event_id m s
        ≡ publish_event
            (nack_of now event_id m.message_id ("Missing fields: " <> join (missing_fields m)))
            s
  unfolding handle_outbound_message
  incomplete_lem m s h = rw h refl

  given_lem :
      (m : Message) (s : HttpRpc)
      → (missing m.in_reply_to || missing m.content) ≡ false
      → handle_outbound_message now event_id m s
        ≡ reply_to now event_id m (given_field m.in_reply_to) (given_field m.content) s
  unfolding handle_outbound_message
  given_lem m s h = rw h refl

  abbrev OneEvent : Message → HttpRpc → Result (Unit {0}) × HttpRpc → Type 0
  OneEvent m s out =
      (e : Event) × (out.0 ≡ ok tt)
      × (out.1.published ≡ s.published ++ (e ∷ []))
      × (IsOn m.message_id ack e ⊎ (IsOn m.message_id nack e × (out ≡ (ok tt, published e s))))

  nack-OneEvent :
      (m : Message) (reason : String) (s : HttpRpc)
      → OneEvent m s (publish_event (nack_of now event_id m.message_id reason) s)
  nack-OneEvent m reason s =
      let (e, made, on, why) = nack_of_lem m.message_id reason in
      subst (OneEvent m s) (sym (publish_event_ok _ e s made)) (e, refl, refl, inr (on, refl))

  ack-OneEvent :
      (m : Message) (id content : String) (s : HttpRpc)
      → OneEvent m s (publish_event (ack_of now event_id m.message_id) (finished id content s))
  ack-OneEvent m id content s =
      let (e, made, on) = ack_of_lem m.message_id in
      subst (OneEvent m s) (sym (publish_event_ok _ e (finished id content s) made))
        (e, refl, refl, inl on)

  -- A reply with content to a request that waits is given to it as the body of a response with
  -- status 200, and the message is acknowledged. The request is woken and will then end with that
  -- response.
  pub handle_outbound_message_replies :
      (m : Message) (id content : String) (r : Request) (s : HttpRpc)
      → m.in_reply_to ≡ some id
      → (id == "") ≡ false
      → m.content ≡ some content
      → (content == "") ≡ false
      → Dict.lookup id s.requests ≡ some r
      → (e : Event) × (handle_outbound_message now event_id m s
          ≡ (ok tt, published e (finished id content s)))
        × IsOn m.message_id ack e
        × ((end_request id (published e (finished id content s))).0
            ≡ ok (record { data_ = content; code = 200; headers = [] }))
  handle_outbound_message_replies m id content r s a b c d waits =
      let (e, made, on) = ack_of_lem m.message_id in
      (
        e,
        complete_lem m id content s a b c d
            ∙ reply_to_open m id content r s waits
            ∙ publish_event_ok _ e (finished id content s) made,
        on,
        end_request_lem id (record { data_ = content; code = 200; headers = [] })
            (published e (finished id content s))
            (Dict.lookup-insert id id _ s.results ∙ rw (beq_self id) refl),
      )

  -- Every outbound message gets one event, and a `nack` leaves the requests and results alone.
  pub handle_outbound_message-one_event :
      (m : Message) (s : HttpRpc)
      → (e : Event) × ((handle_outbound_message now event_id m s).0 ≡ ok tt)
        × ((handle_outbound_message now event_id m s).1.published ≡ s.published ++ (e ∷ []))
        × (IsOn m.message_id ack e
            ⊎ (IsOn m.message_id nack e
                × (handle_outbound_message now event_id m s ≡ (ok tt, published e s))))
  handle_outbound_message-one_event m s =
      elim (Bool-cases (missing m.in_reply_to || missing m.content)) [
        | inl h ↦ subst (OneEvent m s) (sym (incomplete_lem m s h)) (nack-OneEvent m _ s)
        | inr h ↦
            let id = given_field m.in_reply_to in
            let content = given_field m.content in
            subst (OneEvent m s) (sym (given_lem m s h))
              (elim (Option-cases (Dict.lookup id s.requests)) [
                | inl e ↦
                    subst (OneEvent m s) (sym (reply_to_unknown m id content s e))
                      (nack-OneEvent m "No matching request" s)
                | inr (r, e) ↦
                    subst (OneEvent m s) (sym (reply_to_open m id content r s e))
                      (ack-OneEvent m id content s)
              ])
      ]
