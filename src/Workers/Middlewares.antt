-- ===== src/Workers/Middlewares.antt =====
-- The middlewares of src/vumi2/middlewares: logging.py and unidecoder.py. The name of a log level,
-- the rendering of a message and the transliteration of a text are arguments.
use vumi.Prelude.{
  ℕ, String, ◌<>◌, Bool, true, false, Option, none, some, List, [], ◌∷◌, map, Result, ok, err,
  key_error, ◌==◌, string_eq, ◌≡◌, refl, ap, ◌∙◌, if◌then◌else◌, Bool-cases, inl, inr,
}
use vumi.Messages.{Message}
use vumi.Workers.{MiddlewareConfig, Middleware, enabled, run, middleware_handler}

-- `LoggingMiddleware` after its `setup`.
pub record LoggingMiddleware : Type 0 where
  pub config : MiddlewareConfig
  pub log_level : ℕ
  pub logger_name : String

-- `setup`: a level that has no such name is a `KeyError`.
unfoldable pub setup :
    (level : String → Option ℕ) (upper : String → String)
    → MiddlewareConfig
    → (log_level logger_name : String) → Result LoggingMiddleware
setup level upper config log_level logger_name = elim (level (upper log_level)) [
  | none ↦ err key_error
  | some n ↦ ok (record { config = config; log_level = n; logger_name = logger_name })
]

-- `_log_msg`: the line that is logged, and the message.
unfoldable pub log_msg :
    {T : Type 0}
    → (show : T → String) → (direction : String) → T
    → (connector_name : String) → String × T
log_msg show direction msg connector_name = (
  "Processed " <> (direction <> (" message for " <> (connector_name <> (": " <> show msg)))),
  msg,
)

-- `handle_inbound`, `handle_outbound` and `handle_event`, which differ in the direction.
abbrev pub logging :
    {T : Type 0} → (show : T → String) → (direction : String) → LoggingMiddleware → Middleware T
logging show direction m = record {
  config = m.config;
  handle = λ msg connector_name. ok (log_msg show direction msg connector_name).1;
}

-- `if message.content: message.content = unidecode(message.content)`
unfoldable pub decoded : (unidecode : String → String) → Option String → Option String
decoded unidecode none = none
decoded unidecode (some content) = if content == "" then some content else some (unidecode content)

-- `Unidecoder.handle_inbound` and `handle_outbound`
unfoldable pub decode_content : (unidecode : String → String) → Message → Message
unfolding decoded
decode_content unidecode m = record m { content = decoded unidecode m.content }

abbrev pub unidecoder : (unidecode : String → String) → MiddlewareConfig → Middleware Message
unidecoder unidecode config = record {
  config = config;
  handle = λ m connector_name. ok (decode_content unidecode m);
}

-- A configured middleware.
pub data Configured : Type 0 where
  logs : LoggingMiddleware → Configured
  decodes : MiddlewareConfig → Configured

module _ (unidecode : String → String) (show : Message → String) (direction : String)
    (flag : MiddlewareConfig → Bool) (connector_name : String) where
  abbrev pub middleware : Configured → Middleware Message
  middleware (logs m) = logging show direction m
  middleware (decodes config) = unidecoder unidecode config

  -- Whether one of them decodes here.
  abbrev pub any_decodes : List Configured → Bool
  any_decodes [] = false
  any_decodes (logs m ∷ ms) = any_decodes ms
  any_decodes (decodes config ∷ ms) =
      let rest = any_decodes ms in if enabled flag config connector_name then true else rest

  -- A transliterated text is left as it is.
  abbrev pub IsSettled : Type 0
  IsSettled = (s : String) → unidecode (unidecode s) ≡ unidecode s

  decoded_twice :
      IsSettled
      → (o : Option String) → decoded unidecode (decoded unidecode o) ≡ decoded unidecode o
  unfolding decoded
  decoded_twice h none = refl
  decoded_twice h (some s) = elim (Bool-cases (s == "")) [
    | inl e ↦ rw (e, decoded, e) refl
    | inr e ↦
        rw (e, decoded)
          (elim (Bool-cases (unidecode s == "")) [
            | inl f ↦ rw f refl
            | inr f ↦ rw f (ap some (h s))
          ])
  ]

  decode_twice :
      IsSettled
      → (m : Message)
      → decode_content unidecode (decode_content unidecode m) ≡ decode_content unidecode m
  unfolding decode_content
  decode_twice h m = λ i. record m { content = decoded_twice h m.content i }

  decodes_again :
      IsSettled
      → (b : Bool) (m : Message)
      → (if b
          then decode_content unidecode (decode_content unidecode m)
          else decode_content unidecode m)
        ≡ decode_content unidecode m
  decodes_again h true m = decode_twice h m
  decodes_again h false m = refl

  -- Logging middlewares and unidecoders in any number and order: the handler gets the message as
  -- it is if no unidecoder is enabled for this connector and kind of message, and otherwise the
  -- message with its content transliterated, once; where transliterating a text a second time
  -- changes nothing.
  pub middleware_handler-decodes :
      {R : Type 0} (ms : List Configured) (handler : Message → Result R) (m : Message)
      → IsSettled
      → middleware_handler flag connector_name (map middleware ms) handler m
        ≡ handler (if any_decodes ms then decode_content unidecode m else m)
  unfolding middleware_handler run log_msg
  middleware_handler-decodes [] handler m h = refl
  middleware_handler-decodes (logs l ∷ ms) handler m h =
      elim (Bool-cases (enabled flag l.config connector_name)) [
        | inl on ↦ rw (on, run) (middleware_handler-decodes ms handler m h)
        | inr off ↦ rw (off, run) (middleware_handler-decodes ms handler m h)
      ]
  middleware_handler-decodes (decodes config ∷ ms) handler m h =
      elim (Bool-cases (enabled flag config connector_name)) [
        | inl on ↦
            rw (on, run)
              (middleware_handler-decodes ms handler (decode_content unidecode m) h
                ∙ ap handler (decodes_again h (any_decodes ms) m))
        | inr off ↦ rw (off, run) (middleware_handler-decodes ms handler m h)
      ]
