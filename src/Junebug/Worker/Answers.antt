-- ===== src/Junebug/Worker/Answers.antt =====
-- What `JunebugMessageApi.http_send_message`
-- (src/vumi2/applications/junebug_message_api/junebug_message_api.py) answers.
use vumi.Prelude.{
  ℕ, String, Bool, true, false, ◌≡◌, refl, ◌⊎◌, inl, inr, none, some, [], ◌∷◌, ◌++◌, Error, Result,
  ok, err, if◌then◌else◌,
}
use vumi.Api.{TimeLimit, in_time, reading, publishing, failing, is_api_error}
use vumi.Messages.{Message}
use vumi.Junebug.{MemoryJunebugStateCache}
use vumi.Junebug.Outbound.{JunebugOutboundMessage, junebug_inbound_from_msg}
use vumi.Junebug.Worker.{
  JunebugMessageApiConfig, JunebugMessageApi, Environment, Response, Returned, response,
  error_response, caught, publish, send_outbound, send_built, build_outbound, send_message,
  decode_request, http_send_message,
}

module _ (config : JunebugMessageApiConfig) (env : Environment) where
  -- One message is published, and the response describes it.
  abbrev pub Submits : (s t : JunebugMessageApi) → Response → Type 0
  Submits s t r =
      (m : Message) × (t.published ≡ s.published ++ (m ∷ []))
      × (r
          ≡ response "message submitted"
              (junebug_inbound_from_msg env.show_time m config.connector_name) 201)

  -- Nothing is published, and the response describes an `ApiError`.
  abbrev pub Refuses : (s t : JunebugMessageApi) → Response → Type 0
  Refuses s t r =
      (e : Error) × (is_api_error e ≡ true) × (r ≡ error_response e) × (t.published ≡ s.published)

  -- One message is published, or nothing.
  abbrev pub AtMostOne : (s t : JunebugMessageApi) → Type 0
  AtMostOne s t =
      (t.published ≡ s.published) ⊎ ((m : Message) × (t.published ≡ s.published ++ (m ∷ [])))

  -- A message is published without a response to say so only by a call of `publish_outbound` that
  -- is cut off after it has sent it.
  abbrev pub Leaves : TimeLimit → (s t : JunebugMessageApi) → Type 0
  Leaves in_time s t = t.published ≡ s.published
  Leaves reading s t = t.published ≡ s.published
  Leaves (publishing is_sent) s t = if is_sent then AtMostOne s t else (t.published ≡ s.published)
  Leaves (failing is_sent e) s t = if is_sent then AtMostOne s t else (t.published ≡ s.published)

  -- Where the time limit passes.
  abbrev pub IsLate : TimeLimit → Type 0
  IsLate in_time = ⊥
  IsLate reading = Unit
  IsLate (publishing is_sent) = Unit
  IsLate (failing is_sent e) = ⊥

  -- What `publish_outbound` raises is no `ApiError`.
  abbrev pub RaisesOther : TimeLimit → Type 0
  RaisesOther (failing is_sent e) = is_api_error e ≡ false
  RaisesOther _ = Unit

  -- There is no response if the time limit passes; what a call raises is no `ApiError`.
  abbrev pub Answers : TimeLimit → (s : JunebugMessageApi) → Returned × JunebugMessageApi → Type 0
  Answers limit s (ok (some r), t) = Submits s t r ⊎ Refuses s t r
  Answers limit s (ok none, t) = IsLate limit × Leaves limit s t
  Answers limit s (err e, t) = (is_api_error e ≡ false) × Leaves limit s t

  unsent-Leaves :
      (limit : TimeLimit) (s t : JunebugMessageApi) → t.published ≡ s.published → Leaves limit s t
  unsent-Leaves in_time s t h = h
  unsent-Leaves reading s t h = h
  unsent-Leaves (publishing true) s t h = inl h
  unsent-Leaves (publishing false) s t h = h
  unsent-Leaves (failing true e) s t h = inl h
  unsent-Leaves (failing false e) s t h = h

  caught-Answers :
      (limit : TimeLimit) (e : Error) (s t : JunebugMessageApi)
      → t.published ≡ s.published
      → Answers limit s (caught e, t)
  caught-Answers limit e s t h = go (is_api_error e) refl
    where
      go :
          (b : Bool)
          → is_api_error e ≡ b
          → Answers limit s (if b then ok (some (error_response e)) else err e, t)
      go true p = inr (e, p, refl, h)
      go false p = (p, unsent-Leaves limit s t h)

  publish-Answers :
      (limit : TimeLimit) (m : Message) (s t : JunebugMessageApi)
      → RaisesOther limit
      → t.published ≡ s.published
      → Answers limit s (publish config env limit m t)
  unfolding publish
  publish-Answers in_time m s t o h = inl (m, rw h refl, refl)
  publish-Answers reading m s t o h = (tt, h)
  publish-Answers (publishing true) m s t o h = (tt, inr (m, rw h refl))
  publish-Answers (publishing false) m s t o h = (tt, h)
  publish-Answers (failing true e) m s t o h = rw o (o, inr (m, rw h refl))
  publish-Answers (failing false e) m s t o h = rw o (o, h)

  module _ (now stamp : ℕ) where
    send_built-Answers :
        (limit : TimeLimit) (jom : JunebugOutboundMessage) (built : Result Message)
        (cache : MemoryJunebugStateCache) (s : JunebugMessageApi)
        → RaisesOther limit
        → Answers limit s (send_built config env limit now stamp jom (built, cache) s)
    unfolding send_built send_outbound
    send_built-Answers limit jom (err e) cache s o = caught-Answers limit e s _ refl
    send_built-Answers limit jom (ok m) cache s o = publish-Answers limit m s _ o refl

    send_message-Answers :
        (limit : TimeLimit) (id : String) (decoded : Result JunebugOutboundMessage)
        (s : JunebugMessageApi)
        → RaisesOther limit
        → Answers limit s (send_message config env limit now stamp id decoded s)
    unfolding send_message
    send_message-Answers reading id decoded s o = (tt, refl)
    send_message-Answers in_time id (err e) s o = caught-Answers in_time e s _ refl
    send_message-Answers (publishing b) id (err e) s o = caught-Answers (publishing b) e s _ refl
    send_message-Answers (failing b x) id (err e) s o = caught-Answers (failing b x) e s _ refl
    send_message-Answers in_time id (ok jom) s o =
        let (built, cache) = build_outbound config env now id jom s.state_cache in
        send_built-Answers in_time jom built cache s o
    send_message-Answers (publishing b) id (ok jom) s o =
        let (built, cache) = build_outbound config env now id jom s.state_cache in
        send_built-Answers (publishing b) jom built cache s o
    send_message-Answers (failing b x) id (ok jom) s o =
        let (built, cache) = build_outbound config env now id jom s.state_cache in
        send_built-Answers (failing b x) jom built cache s o

    -- Whatever the request is: a response says that the message was submitted, and then exactly the
    -- message that it describes is published, or it describes an `ApiError`, and nothing is
    -- published. There is no response only where the time limit passes, and what is raised is no
    -- `ApiError`; then one message at most is published, and none unless `publish_outbound` is cut off
    -- after it has sent one. What `publish_outbound` raises is no `ApiError`.
    pub http_send_message-Answers :
        (limit : TimeLimit) (id body : String) (s : JunebugMessageApi)
        → RaisesOther limit
        → Answers limit s (http_send_message config env limit now stamp id body s)
    unfolding http_send_message
    http_send_message-Answers limit id body s o =
        send_message-Answers limit id (decode_request config env body) s o
