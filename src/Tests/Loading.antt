-- ===== src/Tests/Loading.antt =====
-- The theorems on src/vumi2/class_helpers.py, the options of src/vumi2/cli.py and the middlewares
-- of src/vumi2/middlewares at concrete inputs.
use vumi.Prelude.{
  String, ◌≡◌, ◌↔◌, refl, Bool, true, false, ◌==◌, string_eq, Option, some, List, [], ◌∷◌, map,
  Result, ok, if◌then◌else◌,
}
use vumi.Messages.{Message, sms, new_message}
use vumi.Workers.{MiddlewareConfig, middleware_handler}
use vumi.Workers.Classes.{
  Imported, module_with, module_not_found, class_of, cfs_err, reraised, class_from_string,
}
use vumi.Workers.Classes.Loading.{IsWithin, class_from_string-missing}
use vumi.Workers.Middlewares.{
  Configured, logs, decodes, middleware, decode_content, middleware_handler-decodes,
}
use vumi.Configs.{base_config}
use vumi.Configs.Options.{dest, worker_config_options, cli_keys, worker_config_options-dest}

-- A module that lacks the package `foo`, and one with a class.
abbrev import_module : String → Imported
import_module path =
    if path == "vumi2.routers"
    then module_with (λ name. name == "ToAddressRouter")
    else module_not_found (some "foo")

abbrev message : Option String → String
message name = "No module named 'foo'"

class_from_string-missing_example :
    ((class_from_string import_module message "foo.bar.Worker"
        ≡ cfs_err "foo.bar.Worker" "No module named 'foo'")
      ↔ IsWithin "foo" "foo.bar")
    × ((class_from_string import_module message "foo.bar.Worker" ≡ reraised (some "foo"))
        ↔ (IsWithin "foo" "foo.bar" → ⊥))
class_from_string-missing_example =
    class_from_string-missing import_module message "foo.bar" "Worker" "foo" refl refl

class_from_string_runs :
    (class_from_string import_module message "vumi2.routers.ToAddressRouter"
      ≡ class_of "vumi2.routers" "ToAddressRouter")
    × ((class_from_string import_module message "foo.bar.Worker"
          ≡ cfs_err "foo.bar.Worker" "No module named 'foo'")
        × (class_from_string import_module message "food.bar.Worker" ≡ reraised (some "foo")))
unfolding class_from_string
class_from_string_runs = (refl, (refl, refl))

-- `str.lower` for names in lower case.
abbrev lower : String → String
lower text = text

worker_config_options-dest_example :
    map dest (worker_config_options lower ("" ∷ []) base_config) ≡ cli_keys ("" ∷ []) base_config
worker_config_options-dest_example =
    worker_config_options-dest lower base_config ("" ∷ [])
      (
        (refl, refl, refl),
        (
          (
            (refl, refl, refl),
            (
              (refl, refl, refl),
              ((refl, refl, refl), ((refl, refl, refl), ((refl, refl, refl), tt))),
            ),
          ),
          (
            (refl, refl, refl),
            (
              (refl, refl, refl),
              (
                (refl, refl, refl),
                ((refl, refl, refl), ((refl, refl, refl), ((refl, refl, refl), tt))),
              ),
            ),
          ),
        ),
      )
      ((refl, refl, refl), tt)

options_run :
    worker_config_options lower ("" ∷ []) base_config
    ≡ "amqp-hostname" ∷ "amqp-port" ∷ "amqp-username" ∷ "amqp-password" ∷ "amqp-vhost" ∷ "amqp-url"
      ∷ "worker-concurrency" ∷ "sentry-dsn" ∷ "http-bind" ∷ "log-level" ∷ "middlewares" ∷ []
unfolding worker_config_options
options_run = refl

abbrev enabled_for : List String → MiddlewareConfig
enabled_for names = record {
  enable_for_connectors = names;
  inbound_enabled = true;
  outbound_enabled = false;
  event_enabled = false;
}

-- `unidecode`, for one text.
abbrev unidecode : String → String
unidecode text = if text == "é" then "e" else text

unidecode_settles : (b : Bool) (s : String) → (s == "é") ≡ b → unidecode (unidecode s) ≡ unidecode s
unidecode_settles true s e = rw e refl
unidecode_settles false s e = rw (e, e) refl

abbrev chain : List Configured
chain =
    decodes (enabled_for ("x" ∷ []))
    ∷ logs (record { config = enabled_for ("x" ∷ []); log_level = 20; logger_name = "l" })
    ∷ decodes (enabled_for ("x" ∷ []))
    ∷ []

abbrev asked : Message
asked = record (new_message 7 "m1" "+1" "+2" "smpp" sms) { content = some "é" }

abbrev handler : Message → Result (Option String)
handler m = ok m.content

abbrev show : Message → String
show m = m.message_id

middleware_handler-decodes_example :
    middleware_handler
      (λ c. c.inbound_enabled)
      "x"
      (map (middleware unidecode show "inbound" (λ c. c.inbound_enabled) "x") chain)
      handler
      asked
    ≡ ok (some "e")
unfolding decode_content
middleware_handler-decodes_example =
    middleware_handler-decodes unidecode show "inbound" (λ c. c.inbound_enabled) "x" chain handler
      asked (λ s. unidecode_settles (s == "é") s refl)
