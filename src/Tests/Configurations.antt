-- ===== src/Tests/Configurations.antt =====
-- The theorem on src/vumi2/config.py at a concrete input.
use vumi.Prelude.{
  Bool, true, false, Option, ◌==◌, string_eq, if◌then◌else◌, String, ◌≡◌, refl, none, some, [], ◌∷◌,
  inl, arith,
}
use text.Mathlib.TextEquality.{eq_iff}
use vumi.Messages.Value.{Fields, Value, end, field, obj, str, num, get}
use vumi.Messages.Value.Laws.{find, IsPlain}
use vumi.Configs.{Attributes, plain, nested, done, load_config, load_envvar, load_cli}
use vumi.Configs.Walk.{ask}
use vumi.Configs.Priority.{or_else, PlainArguments, load_config-find}

-- `str.upper` for one name.
abbrev upper : String → String
upper text = text

abbrev cls : Attributes
cls = nested "amqp" (plain "host" (plain "port" done)) (plain "level" done)

abbrev from_file : Fields
from_file = field "amqp" (obj (field "host" (str "a") (field "port" (num 1) end))) end

abbrev arguments : Fields
arguments = field "level" (str "INFO") end

abbrev combined : Fields
combined =
    field "amqp" (obj (field "host" (str "b") (field "port" (num 1) end)))
      (field "level" (str "INFO") end)

abbrev level : String
level = "level"

is_text :
    (b : Bool) (v : Value) → (if b then Option.some (str "INFO") else none) ≡ some v → IsPlain v
is_text true (obj w) h = cc
is_text false (obj w) h = cc
is_text b v h = tt

arguments-PlainArguments : PlainArguments arguments
unfolding get
arguments-PlainArguments k v h = is_text (level == k) v h

load_config-find_example :
    find ("amqp" ∷ "host" ∷ []) combined
    ≡ or_else (ask (load_cli arguments) ("" ∷ []) ("amqp" ∷ "host" ∷ [])) (
        or_else
          (ask (load_envvar upper (("V_amqp_host", "b") ∷ [])) ("V" ∷ []) ("amqp" ∷ "host" ∷ []))
          (find ("amqp" ∷ "host" ∷ []) from_file))
unfolding load_config get
load_config-find_example =
    load_config-find upper "V" (some (obj from_file)) (("V_amqp_host", "b") ∷ []) arguments
      from_file cls ("amqp" ∷ "host" ∷ []) {r = combined}
      (
        (λ p. ground (arith, eq_iff "level" "amqp"), tt),
        ((λ p. ground (arith, eq_iff "port" "host"), tt), (tt, tt)),
        (tt, tt),
      )
      (plain "host" (plain "port" done), inl (refl, refl), inl refl) refl
      (refl, (refl, (refl, tt)), tt) arguments-PlainArguments refl
