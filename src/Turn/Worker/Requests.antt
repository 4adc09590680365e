-- ===== src/Turn/Worker/Requests.antt =====
-- What `TurnChannelsApi.http_send_message`
-- (src/vumi2/applications/turn_channels_api/turn_channels_api.py) does with a request.
use text.Mathlib.TextEquality.{eq_iff}
use vumi.Prelude.{
  ℕ, String, true, false, ◌≡◌, ◌≢◌, ◌⊎◌, inl, inr, refl, ap, ◌∙◌, none, some, [], ◌∷◌, ◌++◌, ok,
  err, Result, key_error, unbound_local_error, string_eq, arith, >>=-eq-ok,
}
use vumi.Api.{is_api_error}
use vumi.Messages.{Message}
use vumi.Messages.Value.{Fields, Value, obj, get}
use vumi.Cache.MessageCache.{MemoryMessageCache}
use vumi.Turn.{turn_outbound_from_msg}
use vumi.Turn.Outbound.{TurnOutboundMessage, deserialise}
use vumi.Api.{TimeLimit, in_time, reading, publishing, failing}
use vumi.Turn.Worker.{
  TurnChannelsApiConfig, TurnChannelsApi, Environment, TurnRequest, unbound, header_or_empty,
  verify_hmac, lacks_reply_to, search_to, find_inbound, build_outbound, send_outbound, send_found,
  send_decoded, decode_request, send_result, http_send_message,
}

-- A call publishes the one message that its response names, or raises and publishes one at most.
abbrev pub Sends : (s : TurnChannelsApi) → Result Value × TurnChannelsApi → Type 0
Sends s (ok v, t) =
    (m : Message) × (v ≡ turn_outbound_from_msg m) × (t.published ≡ s.published ++ (m ∷ []))
Sends s (err e, t) =
    (t.published ≡ s.published) ⊎ ((m : Message) × (t.published ≡ s.published ++ (m ∷ [])))

module _ (config : TurnChannelsApiConfig) (env : Environment) (now stamp : ℕ) (id : String) where
  send_outbound-Sends :
      (limit : TimeLimit) (m : Message) (s t : TurnChannelsApi)
      → t.published ≡ s.published
      → Sends s (send_outbound limit now stamp m t)
  unfolding send_outbound
  send_outbound-Sends in_time m s t h = (m, refl, rw h refl)
  send_outbound-Sends reading m s t h = inl h
  send_outbound-Sends (publishing true) m s t h = inr (m, rw h refl)
  send_outbound-Sends (publishing false) m s t h = inl h
  send_outbound-Sends (failing true e) m s t h = inr (m, rw h refl)
  send_outbound-Sends (failing false e) m s t h = inl h

  built-Sends :
      (limit : TimeLimit) (built : Result Message) (s t : TurnChannelsApi)
      → t.published ≡ s.published
      → Sends s (elim built [ err e ↦ (err e, t) | ok m ↦ send_outbound limit now stamp m t ])
  built-Sends limit (err e) s t h = inl h
  built-Sends limit (ok m) s t h = send_outbound-Sends limit m s t h

  send_decoded-Sends :
      (limit : TimeLimit) (v : Value) (s : TurnChannelsApi)
      → Sends s (send_decoded config env limit now stamp id v s)
  unfolding send_decoded send_found
  send_decoded-Sends limit (obj d) s = built-Sends limit _ s _ refl
  send_decoded-Sends limit v s = inl refl

  send_result-Sends :
      (limit : TimeLimit) (decoded : Result Value) (s : TurnChannelsApi)
      → Sends s (send_result config env now stamp id limit decoded s)
  unfolding send_result
  send_result-Sends reading decoded s = inl refl
  send_result-Sends in_time (err e) s = inl refl
  send_result-Sends (publishing b) (err e) s = inl refl
  send_result-Sends (failing b x) (err e) s = inl refl
  send_result-Sends in_time (ok v) s = send_decoded-Sends in_time v s
  send_result-Sends (publishing b) (ok v) s = send_decoded-Sends (publishing b) v s
  send_result-Sends (failing b e) (ok v) s = send_decoded-Sends (failing b e) v s

  -- Whatever the request is: if `http_send_message` returns, it has published one message, and the
  -- response has the id of that message. If it raises, it has published one at most.
  pub http_send_message-Sends :
      (request : TurnRequest) (s : TurnChannelsApi)
      → Sends s (http_send_message config env now stamp id request s)
  unfolding http_send_message
  http_send_message-Sends request s =
      send_result-Sends request.limit (decode_request config env request) s

  send_result-ok :
      (limit : TimeLimit) (decoded : Result Value) (s : TurnChannelsApi) {v : Value}
      → (send_result config env now stamp id limit decoded s).0 ≡ ok v
      → (u : Value) × (decoded ≡ ok u)
  unfolding send_result
  send_result-ok reading decoded s h = cc
  send_result-ok in_time (err e) s h = cc
  send_result-ok (publishing b) (err e) s h = cc
  send_result-ok (failing b x) (err e) s h = cc
  send_result-ok in_time (ok u) s h = (u, refl)
  send_result-ok (publishing b) (ok u) s h = (u, refl)
  send_result-ok (failing b e) (ok u) s h = (u, refl)

  decode_request_ok :
      (request : TurnRequest) {u : Value}
      → decode_request config env request ≡ ok u
      → (w : Unit {0}) × (verify_hmac config env request ≡ ok w)
  unfolding decode_request
  decode_request_ok request h = let (w, e, rest) = >>=-eq-ok _ _ h in (w, e)

  verified :
      (request : TurnRequest) {w : Unit {0}}
      → config.turn_hmac_secret ≢ ""
      → verify_hmac config env request ≡ ok w
      → header_or_empty request.signature ≡ env.sign config.turn_hmac_secret request.body
  unfolding verify_hmac
  verified request secret h = ground (
    arith,
    eq_iff config.turn_hmac_secret "",
    eq_iff (env.sign config.turn_hmac_secret request.body) (header_or_empty request.signature),
  )

  find_unbound :
      (d : Fields) (c : MemoryMessageCache)
      → lacks_reply_to d ≡ false
      → find_inbound now d c ≡ (ok (unbound, d), c)
  unfolding find_inbound
  find_unbound d c r = rw (r, find_inbound) refl

  pub find_bound :
      (d : Fields) (c : MemoryMessageCache)
      → lacks_reply_to d ≡ true
      → find_inbound now d c ≡ search_to now (get "to" d) d c
  unfolding find_inbound
  find_bound d c r = rw (r, find_inbound) refl

  missing_to :
      (d : Fields) (s : TurnChannelsApi)
      → get "reply_to" d ≡ none
      → get "to" d ≡ none
      → (send_decoded config env in_time now stamp id (obj d) s).0 ≡ err key_error
  unfolding send_decoded search_to send_found
  missing_to d s r to =
      ap (λ f. (send_found config env in_time now stamp id f s).0)
        (find_bound d s.message_cache (rw (r, lacks_reply_to) refl)
          ∙ ap (λ v. search_to now v d s.message_cache) to)

  unbound_inbound :
      (d : Fields) (s : TurnChannelsApi) {tom : TurnOutboundMessage}
      → lacks_reply_to d ≡ false
      → deserialise (some config.default_from_addr) d ≡ ok tom
      → send_decoded config env in_time now stamp id (obj d) s ≡ (err unbound_local_error, s)
  unfolding send_decoded build_outbound
  unbound_inbound d s r given =
      ap (λ f. send_found config env in_time now stamp id f s) (find_unbound d s.message_cache r)
      ∙ rw (given, send_found) refl

  -- Where a secret is set, a request is only answered if its header is the signature of its body.
  pub http_send_message_signed :
      (request : TurnRequest) (s : TurnChannelsApi) {v : Value}
      → config.turn_hmac_secret ≢ ""
      → (http_send_message config env now stamp id request s).0 ≡ ok v
      → header_or_empty request.signature ≡ env.sign config.turn_hmac_secret request.body
  unfolding http_send_message
  http_send_message_signed request s secret h =
      let (u, decoded) = send_result-ok request.limit (decode_request config env request) s h in
      verified request secret (decode_request_ok request decoded).1

  -- The request with the body `d`, decoded in time.
  pub accepted :
      (request : TurnRequest) (v : Value) (s : TurnChannelsApi)
      → request.limit ≡ in_time
      → decode_request config env request ≡ ok v
      → http_send_message config env now stamp id request s
        ≡ send_decoded config env in_time now stamp id v s
  unfolding http_send_message send_result
  accepted request v s t h = rw (t, h, http_send_message, send_result) refl

  -- A request that lacks both `to` and `reply_to` raises `KeyError`, which is no `ApiError`, and not
  -- the error that `deserialise` has for a missing key.
  pub http_send_message_without_to :
      (request : TurnRequest) (d : Fields) (s : TurnChannelsApi)
      → request.limit ≡ in_time
      → decode_request config env request ≡ ok (obj d)
      → get "reply_to" d ≡ none
      → get "to" d ≡ none
      → ((http_send_message config env now stamp id request s).0 ≡ err key_error)
        × (is_api_error key_error ≡ false)
  unfolding send_decoded find_inbound is_api_error
  http_send_message_without_to request d s t h r to =
      let e = accepted request (obj d) s t h in (ap (λ x. x.0) e ∙ missing_to d s r to, refl)

  -- A request that gives a `reply_to` which is not empty, and is otherwise complete, is refused by
  -- `UnboundLocalError`, which is no `ApiError`.
  pub http_send_message_with_reply_to :
      (request : TurnRequest) (d : Fields) (s : TurnChannelsApi) {tom : TurnOutboundMessage}
      → request.limit ≡ in_time
      → decode_request config env request ≡ ok (obj d)
      → lacks_reply_to d ≡ false
      → deserialise (some config.default_from_addr) d ≡ ok tom
      → (http_send_message config env now stamp id request s ≡ (err unbound_local_error, s))
        × (is_api_error unbound_local_error ≡ false)
  unfolding send_decoded find_inbound build_outbound is_api_error
  http_send_message_with_reply_to request d s t h r given =
      (accepted request (obj d) s t h ∙ unbound_inbound d s r given, refl)
