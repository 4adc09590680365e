-- ===== src/Router.antt =====
-- `ToAddressRouter` of src/vumi2/routers.py. What it publishes is recorded in the state, in order,
-- with the connector that takes it. `compile` is `re.compile`, which gives the test of
-- `pattern.match`.
pub mod Setup
pub mod Routing
use vumi.Prelude.{
  ℕ, String, Bool, true, false, not, ◌&&◌, Option, none, some, List, [], ◌∷◌, ◌++◌, contains, ◌==◌,
  string_eq, Result, ok, err, ◌>>=◌, key_error, if◌then◌else◌,
}
use vumi.Messages.{Message, Event}
use vumi.Cache.MessageCache.{MemoryMessageCache, store_outbound, fetch_outbound}
use vumi.Workers.{Worker, setup_receive_inbound_connector, setup_receive_outbound_connector}
use vumi.Workers

pub record ToAddressMapping : Type 0 where
  pub name : String
  pub pattern : String

pub record Config : Type 0 where
  pub transport_names : List String
  pub to_address_mappings : List ToAddressMapping
  pub default_app : Option String

pub data Routed : Type 0 where
  inbound : (app_name : String) → Message → Routed
  event : (app_name : String) → Event → Routed
  outbound : (transport_name : String) → Message → Routed

-- `self.mappings`
abbrev pub Mappings : Type 0
Mappings = List (String × (String → Bool))

pub record Router : Type 0 where
  pub config : Config
  pub worker : Worker
  pub mappings : Mappings
  pub message_cache : MemoryMessageCache
  pub published : List Routed

-- `if name:`
abbrev pub truthy : Option String → Option String
truthy none = none
truthy (some name) = if name == "" then none else some name

module _ (compile : String → Result (String → Bool)) where
  -- The first loop of `setup`.
  unfoldable pub setup_mappings :
      List ToAddressMapping → Mappings → Worker → Result (Mappings × Worker)
  unfolding setup_receive_outbound_connector
  setup_mappings [] mappings w = ok (mappings, w)
  setup_mappings (m ∷ ms) mappings w = compile m.pattern >>= λ pattern.
      setup_receive_outbound_connector m.name w >>= λ w'.
      setup_mappings ms (mappings ++ ((m.name, pattern) ∷ [])) w'

  unfoldable pub setup_default : Option String → Worker → Result Worker
  unfolding setup_receive_outbound_connector
  setup_default default_app w = elim (truthy default_app) [
    | none ↦ ok w
    | some name ↦
        if contains w.receive_outbound_connectors name
        then ok w
        else setup_receive_outbound_connector name w
  ]

  -- The last loop of `setup`.
  unfoldable pub setup_transports : List String → Worker → Result Worker
  unfolding setup_receive_inbound_connector
  setup_transports [] w = ok w
  setup_transports (name ∷ names) w =
      setup_receive_inbound_connector name w >>= λ w'. setup_transports names w'

  unfoldable pub setup : Config → MemoryMessageCache → Result Router
  unfolding Workers.new setup_mappings setup_default setup_transports
  setup config cache = setup_mappings config.to_address_mappings [] Workers.new >>= λ r.
      setup_default config.default_app r.1 >>= λ w.
      setup_transports config.transport_names w >>= λ w'. ok (record {
        config = config;
        worker = w';
        mappings = r.0;
        message_cache = cache;
        published = [];
      })

-- `_get_matched_mapping_name`
unfoldable pub matched_mapping_name : Mappings → Option String → String → Option String
matched_mapping_name [] default_app addr = default_app
matched_mapping_name ((name, pattern) ∷ mappings) default_app addr =
    if pattern addr then some name else matched_mapping_name mappings default_app addr

abbrev pub app_name : Router → String → Option String
app_name r addr = truthy (matched_mapping_name r.mappings r.config.default_app addr)

abbrev pub publish : Routed → Router → Router
publish m r = record r { published = r.published ++ (m ∷ []) }

-- `self.receive_outbound_connectors[app_name]` takes what is routed, if there is an app.
unfoldable pub route : Option String → (String → Routed) → Router → Result (Unit {0}) × Router
route none make r = (ok tt, r)
route (some app) make r =
    if contains r.worker.receive_outbound_connectors app
    then (ok tt, publish (make app) r)
    else (err key_error, r)

unfoldable pub handle_inbound_message : Message → Router → Result (Unit {0}) × Router
unfolding matched_mapping_name route
handle_inbound_message message r = route (app_name r message.to_addr) (λ app. inbound app message) r

unfoldable pub handle_event : (now : ℕ) → Event → Router → Result (Unit {0}) × Router
unfolding fetch_outbound matched_mapping_name route
handle_event now e r =
    let (found, cache) = fetch_outbound now e.user_message_id r.message_cache in
    let r' = record r { message_cache = cache } in
    elim found [
      | none ↦ (ok tt, r')
      | some o ↦ route (app_name r o.from_addr) (λ app. event app e) r'
    ]

unfoldable pub handle_outbound_message :
    (now stamp : ℕ) → Message → Router → Result (Unit {0}) × Router
unfolding store_outbound
handle_outbound_message now stamp message r =
    let r' = record r { message_cache = store_outbound now stamp message r.message_cache } in
    if contains r.worker.receive_inbound_connectors message.transport_name
    then (ok tt, publish (outbound message.transport_name message) r')
    else (err key_error, r')
