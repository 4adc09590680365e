-- ===== src/Workers.antt =====
-- The connectors and middlewares of `BaseWorker` (src/vumi2/workers.py), and `BaseMiddleware` with
-- its config (src/vumi2/middlewares/base.py). A connector is its name.
pub mod Chain
pub mod Health
pub mod Middlewares
pub mod Classes
use vumi.Prelude.{
  String, Bool, true, false, ◌&&◌, ◌<>◌, List, [], ◌∷◌, ◌++◌, filter, contains, string_eq, Result,
  ok, err, ◌>>=◌, duplicate_connector_error, if◌then◌else◌,
}

pub record Worker : Type 0 where
  pub receive_inbound_connectors : List String
  pub receive_outbound_connectors : List String

unfoldable pub new : Worker
new = record { receive_inbound_connectors = []; receive_outbound_connectors = [] }

unfoldable pub setup_receive_inbound_connector : String → Worker → Result Worker
setup_receive_inbound_connector connector_name w =
    if contains w.receive_inbound_connectors connector_name
    then err (
        duplicate_connector_error
          ("Attempt to add duplicate receive inbound connector with name " <> connector_name))
    else ok (record w {
      receive_inbound_connectors = w.receive_inbound_connectors ++ (connector_name ∷ []);
    })

unfoldable pub setup_receive_outbound_connector : String → Worker → Result Worker
setup_receive_outbound_connector connector_name w =
    if contains w.receive_outbound_connectors connector_name
    then err (
        duplicate_connector_error
          ("Attempt to add duplicate receive outbound connector with name " <> connector_name))
    else ok (record w {
      receive_outbound_connectors = w.receive_outbound_connectors ++ (connector_name ∷ []);
    })

-- `BaseMiddlewareConfig`
pub record MiddlewareConfig : Type 0 where
  pub enable_for_connectors : List String
  pub inbound_enabled : Bool
  pub outbound_enabled : Bool
  pub event_enabled : Bool

abbrev pub conn_enabled : MiddlewareConfig → String → Bool
conn_enabled config connector_name = contains config.enable_for_connectors connector_name

-- The three tests of a middleware, by the flag that each reads.
abbrev pub enabled : (MiddlewareConfig → Bool) → MiddlewareConfig → String → Bool
enabled flag config connector_name = flag config && conn_enabled config connector_name

-- A middleware with its handler for one kind of message, `T`.
pub record Middleware (T : Type 0) : Type 0 where
  pub config : MiddlewareConfig
  pub handle : T → String → Result T

module _ {T R : Type 0} where
  -- The loop of the wrapped handler.
  unfoldable pub run : List (Middleware T) → String → (T → Result R) → T → Result R
  run [] connector_name handler msg = handler msg
  run (m ∷ ms) connector_name handler msg =
      m.handle msg connector_name >>= λ msg'. run ms connector_name handler msg'

  -- `middleware_outbound_handler`, `middleware_inbound_handler` and `middleware_event_handler`.
  unfoldable pub middleware_handler :
      (MiddlewareConfig → Bool) → String → List (Middleware T) → (T → Result R) → T → Result R
  unfolding run
  middleware_handler flag connector_name middlewares handler =
      run (filter (λ m. enabled flag m.config connector_name) middlewares) connector_name handler
