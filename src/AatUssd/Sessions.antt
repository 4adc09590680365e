-- ===== src/AatUssd/Sessions.antt =====
-- The messages and the replies of `AatUssdTransport` (src/vumi2/transports/aat_ussd/aat_ussd.py).
use vumi.Prelude.{
  ℕ, String, false, ◌≡◌, ◌≢◌, ◌||◌, refl, ap, ◌∙◌, Option, none, some, List, [], ◌∷◌, ◌++◌, ◌==◌,
  string_eq, beq_self, Result, ok, err, key_error, if◌then◌else◌,
}
use vumi.Prelude.Dict
use vumi.Messages.{Message, Session, new, resume, new_message}
use vumi.Messages.Value.{Fields, field, end, opt_str}
use vumi.HttpRpc.{
  Request, Response, HttpRpc, finish_request, missing, given_field, end_request, publish_event,
  nack_of, ack_of,
}
use vumi.AatUssd.{
  AatUssd, is_given, optional, unless, missing_parameters, inbound_message,
  handle_raw_inbound_message, handle_outbound_message,
}

finish_request_late :
    (id text : String) (code : ℕ) (s : HttpRpc)
    → Dict.lookup id s.requests ≡ none
    → finish_request id text code s ≡ (
      err key_error,
      record s {
        results = Dict.insert id (record { data_ = text; code = code; headers = [] }) s.results;
      },
    )
unfolding finish_request
finish_request_late id text code s gone = rw (gone, finish_request) refl

module _ (generate_body : String → (from_addr : String) → Session → String) (now : ℕ)
    (event_id : String) where
  abbrev answer : Message → String → Response
  answer m content = record {
    data_ = generate_body content m.from_addr m.session_event;
    code = 200;
    headers = [];
  }

  late_lem :
      (id content : String) (m : Message) (s : HttpRpc)
      → m.in_reply_to ≡ some id
      → (id == "") ≡ false
      → m.content ≡ some content
      → (content == "") ≡ false
      → Dict.lookup id s.requests ≡ none
      → handle_outbound_message generate_body now event_id m s
        ≡ (err key_error, record s { results = Dict.insert id (answer m content) s.results })
  unfolding handle_outbound_message
  late_lem id content m s a b c d gone =
      let finish : Result (Unit {0}) × HttpRpc → Result (Unit {0}) × HttpRpc = λ r. elim r.0 [
        | err e ↦ (err e, r.1)
        | ok _ ↦ publish_event (ack_of now event_id m.message_id) r.1
      ] in
      let run : Option String → Option String → Result (Unit {0}) × HttpRpc = λ i t.
        if missing i
        then publish_event (nack_of now event_id m.message_id "Outbound message is not a reply") s
        else if missing t
        then publish_event (nack_of now event_id m.message_id "Outbound message has no content") s
        else finish (
            finish_request (given_field i)
              (generate_body (given_field t) m.from_addr m.session_event) 200 s) in
      ap (λ (i : Option String). run i m.content) a
      ∙ ap (λ (t : Option String). run (some id) t) c
      ∙ rw (b, d)
          (ap finish
            (finish_request_late id (generate_body content m.from_addr m.session_event) 200 s gone))

  -- A reply with content to a request that no longer waits raises `KeyError`: no event is
  -- published, and the result that was stored first stays under the id of the request.
  pub handle_outbound_message_late :
      (id content : String) (m : Message) (s : HttpRpc)
      → m.in_reply_to ≡ some id
      → (id == "") ≡ false
      → m.content ≡ some content
      → (content == "") ≡ false
      → Dict.lookup id s.requests ≡ none
      → ((handle_outbound_message generate_body now event_id m s).0 ≡ err key_error)
        × ((handle_outbound_message generate_body now event_id m s).1.published ≡ s.published)
        × (Dict.lookup id (handle_outbound_message generate_body now event_id m s).1.results
            ≡ some (answer m content))
  handle_outbound_message_late id content m s a b c d gone =
      let same = late_lem id content m s a b c d gone in
      (
        ap (λ (r : Result (Unit {0}) × HttpRpc). r.0) same,
        ap (λ (r : Result (Unit {0}) × HttpRpc). r.1.published) same,
        ap (λ (r : Result (Unit {0}) × HttpRpc). Dict.lookup id r.1.results) same
            ∙ Dict.lookup-insert id id (answer m content) s.results
            ∙ rw (beq_self id) refl,
      )

finish_request_open :
    (id text : String) (code : ℕ) (r : Request) (s : HttpRpc)
    → Dict.lookup id s.requests ≡ some r
    → finish_request id text code s ≡ (
      ok tt,
      record s {
        results = Dict.insert id (record { data_ = text; code = code; headers = [] }) s.results;
        requests = Dict.erase id s.requests;
        woken = s.woken ++ (id ∷ []);
      },
    )
unfolding finish_request
finish_request_open id text code r s waits = rw (waits, finish_request) refl

end_request_open :
    (id : String) (r : Response) (s : HttpRpc)
    → Dict.lookup id s.results ≡ some r
    → (end_request id s).0 ≡ ok r
unfolding end_request
end_request_open id r s e = rw (e, end_request) refl

-- What a request leads to: a message that waits for its reply, where all parameters are there, or
-- else the response 400.
module _ (missing_body : List String → String) (transport_name : String) (now : ℕ) where
  abbrev bad_request : String → List String → Response
  bad_request name more = record { data_ = missing_body (name ∷ more); code = 400; headers = [] }

  incomplete_lem :
      (id name : String) (more : List String) (r : Request) (s : AatUssd)
      → missing_parameters r.args ≡ name ∷ more
      → Dict.lookup id s.http.requests ≡ some r
      → handle_raw_inbound_message missing_body transport_name now id r s ≡ (
        ok tt,
        record s {
          http = record s.http {
            results = Dict.insert id (bad_request name more) s.http.results;
            requests = Dict.erase id s.http.requests;
            woken = s.http.woken ++ (id ∷ []);
          };
        },
      )
  unfolding handle_raw_inbound_message
  incomplete_lem id name more r s lacks waits =
      rw (lacks, handle_raw_inbound_message)
        (ap (λ (x : Result (Unit {0}) × HttpRpc). (x.0, record s { http = x.1 }))
          (finish_request_open id (missing_body (name ∷ more)) 400 r s.http waits))

  -- Nothing is published for a waiting request that lacks a parameter, and its response is ready:
  -- status 400 with the names that are missing.
  pub handle_raw_inbound_message_incomplete :
      (id name : String) (more : List String) (r : Request) (s : AatUssd)
      → missing_parameters r.args ≡ name ∷ more
      → Dict.lookup id s.http.requests ≡ some r
      → ((handle_raw_inbound_message missing_body transport_name now id r s).0 ≡ ok tt)
        × ((handle_raw_inbound_message missing_body transport_name now id r s).1.inbound
            ≡ s.inbound)
        × ((end_request id
              (handle_raw_inbound_message missing_body transport_name now id r s).1.http).0
            ≡ ok (record { data_ = missing_body (name ∷ more); code = 400; headers = [] }))
  handle_raw_inbound_message_incomplete id name more r s lacks waits =
      let out = incomplete_lem id name more r s lacks waits in
      (
        ap (λ (x : Result (Unit {0}) × AatUssd). x.0) out,
        ap (λ (x : Result (Unit {0}) × AatUssd). x.1.inbound) out,
        ap (λ (x : Result (Unit {0}) × AatUssd). (end_request id x.1.http).0) out
            ∙ end_request_open id (bad_request name more) _ (
                Dict.lookup-insert id id (bad_request name more) s.http.results
                ∙ rw (beq_self id) refl),
      )

  -- The message of a request from `from_addr`: without `to_addr` it opens a session.
  pub record Opens (id from_addr provider request : String) (session : Option String) (m : Message)
      : Type 0 where
    pub message_id : m.message_id ≡ id
    pub sender : m.from_addr ≡ from_addr
    pub receiver : m.to_addr ≡ request
    pub content : m.content ≡ some request
    pub session_event : m.session_event ≡ new
    pub transport : (m.transport_name ≡ transport_name) × (m.provider ≡ some provider)
    pub session_id : m.helper_metadata ≡ field "session_id" (opt_str session) end

  -- With `to_addr` it goes on with one.
  pub record Resumes (id from_addr provider to_addr : String) (request session : Option String)
      (m : Message) : Type 0 where
    pub message_id : m.message_id ≡ id
    pub sender : m.from_addr ≡ from_addr
    pub receiver : m.to_addr ≡ to_addr
    pub content : m.content ≡ request
    pub session_event : m.session_event ≡ resume
    pub transport : (m.transport_name ≡ transport_name) × (m.provider ≡ some provider)
    pub session_id : m.helper_metadata ≡ field "session_id" (opt_str session) end

  -- The names of the parameters that are not there.
  abbrev pub absent : String → Option String → List String
  absent name none = name ∷ []
  absent name (some v) = []

  abbrev pub no_text : (to_addr request : Option String) → List String
  no_text none none = "request" ∷ []
  no_text (some t) q = []
  no_text none (some q) = []

  abbrev pub lacking : (msisdn provider to_addr request : Option String) → List String
  lacking a p t q = absent "msisdn" a ++ (absent "provider" p ++ no_text t q)

  abbrev pub Refused : (id : String) → AatUssd → List String → Result (Unit {0}) × AatUssd → Type 0
  Refused id s names out =
      (out.0 ≡ ok tt)
      × (out.1.inbound ≡ s.inbound)
      × ((end_request id out.1.http).0
          ≡ ok (record { data_ = missing_body names; code = 400; headers = [] }))

  abbrev pub Published : AatUssd → (Message → Type 0) → Result (Unit {0}) × AatUssd → Type 0
  Published s P out =
      (m : Message) × (out ≡ (ok tt, record s { inbound = s.inbound ++ (m ∷ []) })) × P m

  -- What a request leads to, by its parameters.
  abbrev pub Handled :
      (id : String)
      → AatUssd
      → (msisdn provider to_addr request session : Option String) → Result (Unit {0}) × AatUssd
      → Type 0
  Handled id s (some a) (some p) (some t) q u out = Published s (Resumes id a p t q u) out
  Handled id s (some a) (some p) none (some q) u out = Published s (Opens id a p q u) out
  Handled id s a p t q u out = Refused id s (lacking a p t q) out

  missing_parameters-lacking :
      (args : List (String × String))
      → missing_parameters args
        ≡ lacking
            (Dict.lookup "msisdn" args)
            (Dict.lookup "provider" args)
            (Dict.lookup "to_addr" args)
            (Dict.lookup "request" args)
  unfolding missing_parameters
  missing_parameters-lacking args =
      go (Dict.lookup "msisdn" args) (Dict.lookup "provider" args) (Dict.lookup "to_addr" args)
        (Dict.lookup "request" args)
    where
      name_lem : (n : String) (o : Option String) → unless (is_given o) n ≡ absent n o
      name_lem n none = refl
      name_lem n (some v) = refl

      text_lem : (t q : Option String) → unless (is_given t || is_given q) "request" ≡ no_text t q
      text_lem none none = refl
      text_lem none (some q) = refl
      text_lem (some t) q = refl

      go :
          (a p t q : Option String)
          → unless (is_given a) "msisdn"
              ++ (unless (is_given p) "provider" ++ unless (is_given t || is_given q) "request")
            ≡ lacking a p t q
      go a p t q i = name_lem "msisdn" a i ++ (name_lem "provider" p i ++ text_lem t q i)

  published_lem :
      (id : String) (r : Request) (s : AatUssd)
      → missing_parameters r.args ≡ []
      → handle_raw_inbound_message missing_body transport_name now id r s ≡ (
        ok tt,
        record s {
          inbound =
              s.inbound
              ++ (inbound_message transport_name now id
                    (given_field (Dict.lookup "msisdn" r.args))
                    (given_field (Dict.lookup "provider" r.args))
                    (Dict.lookup "ussdSessionId" r.args)
                    (Dict.lookup "to_addr" r.args)
                    (Dict.lookup "request" r.args)
                  ∷ []);
        },
      )
  unfolding handle_raw_inbound_message
  published_lem id r s complete = rw (complete, handle_raw_inbound_message) refl

  refused_lem :
      (id : String) (r : Request) (s : AatUssd) (names : List String)
      → missing_parameters r.args ≡ names
      → names ≢ []
      → Dict.lookup id s.http.requests ≡ some r
      → Refused id s names (handle_raw_inbound_message missing_body transport_name now id r s)
  refused_lem id r s [] h n waits = absurd (n refl)
  refused_lem id r s (name ∷ more) h n waits =
      handle_raw_inbound_message_incomplete id name more r s h waits

  session_id_lem :
      (u : Option String)
      → Path Fields (field "session_id" (optional u) end) (field "session_id" (opt_str u) end)
  session_id_lem none = refl
  session_id_lem (some u) = refl

  -- A waiting request with `msisdn`, `provider` and one of `to_addr` and `request` is published as
  -- one message from `msisdn`, with the id of the request, the provider and the id of the USSD
  -- session. With `to_addr` it goes there, goes on with a session, and its content is `request` if
  -- that is given; else it opens a session, and both its address and its content are `request`. Any
  -- other waiting request publishes nothing, and is answered with status 400 and the names that are
  -- missing, in order.
  pub handle_raw_inbound_message-Handled :
      (id : String) (r : Request) (s : AatUssd)
      → Dict.lookup id s.http.requests ≡ some r
      → Handled id s
          (Dict.lookup "msisdn" r.args)
          (Dict.lookup "provider" r.args)
          (Dict.lookup "to_addr" r.args)
          (Dict.lookup "request" r.args)
          (Dict.lookup "ussdSessionId" r.args)
          (handle_raw_inbound_message missing_body transport_name now id r s)
  unfolding inbound_message new_message
  handle_raw_inbound_message-Handled id r s waits =
      go (Dict.lookup "msisdn" r.args) (Dict.lookup "provider" r.args)
        (Dict.lookup "to_addr" r.args) (Dict.lookup "request" r.args)
        (Dict.lookup "ussdSessionId" r.args) (missing_parameters-lacking r.args)
        (published_lem id r s)
    where
      out : Result (Unit {0}) × AatUssd
      out = handle_raw_inbound_message missing_body transport_name now id r s

      go :
          (a p t q u : Option String)
          → missing_parameters r.args ≡ lacking a p t q
          → (missing_parameters r.args ≡ []
              → out ≡ (
                ok tt,
                record s {
                  inbound =
                      s.inbound
                      ++ (inbound_message transport_name now id
                            (given_field a)
                            (given_field p)
                            u
                            t
                            q
                          ∷ []);
                },
              ))
          → Handled id s a p t q u out
      go (some a) (some p) (some t) q u h published = (
        _,
        published h,
        record {
          message_id = refl;
          sender = refl;
          receiver = refl;
          content = refl;
          session_event = refl;
          transport = (refl, refl);
          session_id = session_id_lem u;
        },
      )
      go (some a) (some p) none (some q) u h published = (
        _,
        published h,
        record {
          message_id = refl;
          sender = refl;
          receiver = refl;
          content = refl;
          session_event = refl;
          transport = (refl, refl);
          session_id = session_id_lem u;
        },
      )
      go (some a) (some p) none none u h published = refused_lem id r s _ h (λ e. cc) waits
      go (some a) none t q u h published = refused_lem id r s _ h (λ e. cc) waits
      go none p t q u h published = refused_lem id r s _ h (λ e. cc) waits
