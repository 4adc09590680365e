-- ===== src/Configs.antt =====
-- src/vumi2/config.py: the dictionaries that the configuration of a worker is read from, and how
-- they are combined. The YAML reader and `str.upper` are arguments; what cattrs makes of the combined
-- dictionary is not modelled.
pub mod Combine
pub mod Copy
pub mod Walk
pub mod Options
pub mod Priority
use vumi.Prelude.{
  String, ◌<>◌, Bool, true, false, Option, none, some, List, [], ◌∷◌, ◌++◌, filter, not, map,
  Result, ok, err, ◌>>=◌, attribute_error, ◌==◌, string_eq,
}
use vumi.Prelude.Dict
use vumi.Messages.Value.{Fields, Value, end, field, obj, str, get, put, null}

-- The fields of an attrs class: one with a class of its own, or a plain one.
pub data Attributes : Type 0 where
  done : Attributes
  plain : (name : String) → (rest : Attributes) → Attributes
  nested : (name : String) → (inner rest : Attributes) → Attributes

-- `AmqpConfig` and `BaseConfig`
abbrev pub amqp_config : Attributes
amqp_config =
    plain "hostname" (plain "port" (plain "username" (plain "password" (plain "vhost" done))))

abbrev pub base_config : Attributes
base_config = nested "amqp" amqp_config (
    plain "amqp_url" (
      plain "worker_concurrency"
        (plain "sentry_dsn" (plain "http_bind" (plain "log_level" (plain "middlewares" done))))))

-- `if value is not None: result[field.name] = value`
unfoldable pub put_given : String → Option Value → Fields → Fields
unfolding put
put_given name none result = result
put_given name (some v) result = put name v result

-- `walk_config_class`, with the names of the fields around as `prefix` and the dictionary built so
-- far as `result`.
unfoldable pub walk_config_class :
    (fn : (name : String) → (prefix : List String) → Option Value)
    → (prefix : List String) → (result : Fields) → Attributes
    → Fields
unfolding put put_given
walk_config_class fn prefix result done = result
walk_config_class fn prefix result (plain name rest) =
    walk_config_class fn prefix (put_given name (fn name prefix) result) rest
walk_config_class fn prefix result (nested name inner rest) =
    let dict = walk_config_class fn (prefix ++ (name ∷ [])) end inner in
    walk_config_class fn prefix (put name (obj dict) result) rest

abbrev pub join_parts : List String → String
join_parts [] = ""
join_parts (x ∷ []) = x
join_parts (x ∷ y ∷ xs) = x <> ("_" <> join_parts (y ∷ xs))

abbrev pub given_parts : List String → List String
given_parts parts = filter (λ part. not (part == "")) parts

-- `_create_env_var_key`
unfoldable pub create_env_var_key : (upper : String → String) → List String → String
create_env_var_key upper parts = join_parts (map upper (given_parts parts))

-- `_create_cli_key`
unfoldable pub create_cli_key : List String → String
create_cli_key parts = join_parts (given_parts parts)

abbrev pub text_value : Option String → Option Value
text_value none = none
text_value (some text_) = some (str text_)

-- `load_envvar`, by `source.get(key, None)`
unfoldable pub load_envvar :
    (upper : String → String) (source : List (String × String)) (name : String)
    (prefix : List String)
    → Option Value
unfolding Dict.lookup create_env_var_key
load_envvar upper source name prefix =
    text_value (Dict.lookup (create_env_var_key upper (prefix ++ (name ∷ []))) source)

unfoldable pub load_config_from_environment :
    (upper : String → String)
    → (prefix : String) → (source : List (String × String)) → Attributes
    → Fields
unfolding walk_config_class load_envvar
load_config_from_environment upper prefix source cls =
    walk_config_class (load_envvar upper source) (prefix ∷ []) end cls

-- A `None` counts as nothing.
abbrev pub not_none : Option Value → Option Value
not_none none = none
not_none (some null) = none
not_none (some v) = some v

-- `load_cli`, by `getattr(source, key, None)`
unfoldable pub load_cli : (source : Fields) (name : String) (prefix : List String) → Option Value
unfolding get create_cli_key
load_cli source name prefix = not_none (get (create_cli_key (prefix ++ (name ∷ []))) source)

unfoldable pub load_config_from_cli : (source : Fields) (prefix : String) → Attributes → Fields
unfolding walk_config_class load_cli
load_config_from_cli source prefix cls = walk_config_class (load_cli source) (prefix ∷ []) end cls

-- `_combine_nested_dictionaries(result.get(k, {}), v)`, by what combines a dictionary with `v`.
-- Python first copies what was there, which changes nothing.
abbrev pub merged : (merge : Fields → Result Fields) → Option Value → Result Fields
merged merge none = merge end
merged merge (some (obj e)) = merge e
merged merge (some _) = err attribute_error

-- The loop over the items of one dictionary.
unfoldable pub combine_into : (result : Fields) → Fields → Result Fields
unfolding get put
combine_into result end = ok result
combine_into result (field k (obj w) d) =
    merged (λ e. combine_into e w) (get k result) >>= λ m. combine_into (put k (obj m) result) d
combine_into result (field k v d) = combine_into (put k v result) d

-- The outer loop of `_combine_nested_dictionaries`
unfoldable pub combine_all : (result : Fields) → List Fields → Result Fields
unfolding combine_into
combine_all result [] = ok result
combine_all result (d ∷ ds) = combine_into result d >>= λ r. combine_all r ds

-- `load_config_from_file`, with what `yaml.safe_load` gives for the file, if one is named.
unfoldable pub load_config_from_file : (file : Option Value) → Value
load_config_from_file none = obj end
load_config_from_file (some v) = v

-- `d.items()`
abbrev pub items_of : Value → Result Fields
items_of (obj d) = ok d
items_of _ = err attribute_error

-- `load_config` up to `structure`: the file, the environment, the command line.
unfoldable pub load_config :
    (upper : String → String) (prefix : String)
    → (file : Option Value) → (environ : List (String × String)) → (cli : Fields) → Attributes
    → Result Fields
unfolding load_config_from_environment load_config_from_cli load_config_from_file combine_all
load_config upper prefix file environ cli cls =
    items_of (load_config_from_file file) >>= λ config_file. combine_all end (
      config_file
      ∷ load_config_from_environment upper prefix environ cls
      ∷ load_config_from_cli cli "" cls
      ∷ [])
