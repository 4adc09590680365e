-- ===== src/Configs/Priority.antt =====
-- Which source a value of the configuration is taken from (`load_config` of src/vumi2/config.py).
use vumi.Prelude.{
  String, ◌≡◌, refl, ap, ◌∙◌, inl, inr, Option, none, some, List, [], ◌∷◌, ◌++◌, ok, >>=-eq-ok,
  Bool-cases, ◌==◌, string_eq, ◌>>=◌, arith,
}
use text.Mathlib.TextEquality.{eq_iff}
use mathlib.Core.Path.{subst}
use vumi.Prelude.Dict
use vumi.Messages.Value.{Fields, Value, end, field, obj, null, get, put}
use vumi.Messages.Value.Laws.{get-put, find, IsPlain, Unique}
use vumi.Configs.{
  Attributes, done, plain, nested, put_given, walk_config_class, load_envvar, load_cli,
  load_config_from_environment, load_config_from_cli, combine_into, combine_all, text_value,
  not_none, load_config_from_file, items_of, load_config, create_env_var_key, create_cli_key,
}
use vumi.Configs.Combine.{find-combine_into-IsPlain, find-combine_into-Missing}
use vumi.Configs.Copy.{combine_into-end}
use vumi.Configs.Walk.{Distinct, HasField, ask, find-walk, walk-Missing}

-- The first value that is given.
abbrev pub or_else : Option Value → Option Value → Option Value
or_else (some v) other = some v
or_else none other = other

abbrev UniqueValue : Value → Type 0
UniqueValue (obj w) = Unique w
UniqueValue _ = Unit {0}

field-Unique :
    (k : String) (v : Value) (d : Fields)
    → get k d ≡ none
    → UniqueValue v
    → Unique d
    → Unique (field k v d)
field-Unique k (obj w) d h q u = (h, q, u)
field-Unique k v d h q u = (h, u)

Unique-parts :
    (k : String) (v : Value) (d : Fields)
    → Unique (field k v d)
    → (get k d ≡ none) × UniqueValue v × Unique d
Unique-parts k (obj w) d u = u
Unique-parts k v d u = (u.0, tt, u.1)

put-Unique : (k : String) (v : Value) (d : Fields) → UniqueValue v → Unique d → Unique (put k v d)
unfolding put get
put-Unique k v end q u = field-Unique k v end refl q tt
put-Unique k v (field j x d) q u =
    let (free, px, rest) = Unique-parts j x d u in
    elim (Bool-cases (j == k)) [
      | inl same ↦ rw same (field-Unique j v d free q rest)
      | inr other ↦ rw other (
          field-Unique j x (put k v d) (get-put j k v d ∙ ground (arith, eq_iff j k, eq_iff k j)) px
            (put-Unique k v d q rest))
    ]

plain-UniqueValue : (v : Value) → IsPlain v → UniqueValue v
plain-UniqueValue (obj w) h = absurd h
plain-UniqueValue v h = tt

-- The answers are no dictionaries.
abbrev pub AllPlain : (String → List String → Option Value) → Type 0
AllPlain fn =
    (name : String) (prefix : List String) (v : Value) → fn name prefix ≡ some v → IsPlain v

module _ (fn : String → List String → Option Value) (plain_answers : AllPlain fn) where
  walk-Unique :
      (cls : Attributes) (prefix : List String) (result : Fields)
      → Unique result
      → Unique (walk_config_class fn prefix result cls)
  unfolding walk_config_class put_given
  walk-Unique done prefix result u = u
  walk-Unique (plain name rest) prefix result u =
      walk-Unique rest prefix (put_given name (fn name prefix) result) (given (fn name prefix) refl)
    where
      given : (o : Option Value) → fn name prefix ≡ o → Unique (put_given name o result)
      given none e = u
      given (some v) e =
          put-Unique name v result (plain-UniqueValue v (plain_answers name prefix v e)) u
  walk-Unique (nested name inner rest) prefix result u =
      let w = walk_config_class fn (prefix ++ (name ∷ [])) end inner in
      walk-Unique rest prefix (put name (obj w) result)
        (put-Unique name (obj w) result (walk-Unique inner (prefix ++ (name ∷ [])) end tt) u)

  ask-IsPlain : (p prefix : List String) (v : Value) → ask fn prefix p ≡ some v → IsPlain v
  ask-IsPlain [] prefix v e = cc
  ask-IsPlain (k ∷ []) prefix v e = plain_answers k prefix v e
  ask-IsPlain (k ∷ j ∷ ks) prefix v e = ask-IsPlain (j ∷ ks) (prefix ++ (k ∷ [])) v e

  -- What is at the path of a field once the answers are combined with another dictionary.
  find-layer :
      (p : List String) (cls : Attributes) (prefix : List String) (a : Fields) {r : Fields}
      → Distinct cls
      → HasField p cls
      → combine_into a (walk_config_class fn prefix end cls) ≡ ok r
      → find p r ≡ or_else (ask fn prefix p) (find p a)
  find-layer p cls prefix a {r} u h e = go (ask fn prefix p) refl
    where
      go : (o : Option Value) → ask fn prefix p ≡ o → find p r ≡ or_else o (find p a)
      go none q =
          find-combine_into-Missing p a (walk_config_class fn prefix end cls)
            (walk-Unique cls prefix end tt) (walk-Missing fn p cls prefix u h q) e
      go (some v) q =
          find-combine_into-IsPlain p v a (walk_config_class fn prefix end cls)
            (walk-Unique cls prefix end tt) (ask-IsPlain p prefix v q)
            (find-walk fn p cls prefix u h ∙ q) e

load_envvar-AllPlain :
    (upper : String → String) (environ : List (String × String))
    → AllPlain (load_envvar upper environ)
unfolding load_envvar
load_envvar-AllPlain upper environ name prefix v e =
    go (Dict.lookup (create_env_var_key upper (prefix ++ (name ∷ []))) environ) refl e
  where
    go :
        (o : Option String)
        → Dict.lookup (create_env_var_key upper (prefix ++ (name ∷ []))) environ ≡ o
        → text_value o ≡ some v
        → IsPlain v
    go none q h = cc
    go (some t) q h =
        subst (λ (x : Option Value). elim x [ none ↦ Unit {0} | some y ↦ IsPlain y ]) h tt

-- The arguments of the command line are no dictionaries.
abbrev pub PlainArguments : Fields → Type 0
PlainArguments cli = (k : String) (v : Value) → get k cli ≡ some v → IsPlain v

load_cli-AllPlain : (cli : Fields) → PlainArguments cli → AllPlain (load_cli cli)
unfolding load_cli
load_cli-AllPlain cli h name prefix v e =
    go (get (create_cli_key (prefix ++ (name ∷ []))) cli) refl e
  where
    go :
        (o : Option Value)
        → get (create_cli_key (prefix ++ (name ∷ []))) cli ≡ o
        → not_none o ≡ some v
        → IsPlain v
    go none q k = cc
    go (some null) q k = cc
    go (some x) q k = h (create_cli_key (prefix ++ (name ∷ []))) v (q ∙ k)

-- When `load_config` has a dictionary for `structure`, then at the path of each plain field of the
-- class, or of a class inside it, is what the command line gives for it; or else what the environment
-- gives for it, under its own key; or else what is there in the file, if anything. The fields of a
-- class have different names, the file is a dictionary with no key twice or there is none, and the
-- arguments of the command line are no dictionaries.
pub load_config-find :
    (upper : String → String) (prefix : String) (file : Option Value)
    (environ : List (String × String)) (cli f : Fields) (cls : Attributes) (p : List String)
    {r : Fields}
    → Distinct cls
    → HasField p cls
    → load_config_from_file file ≡ obj f
    → Unique f
    → PlainArguments cli
    → load_config upper prefix file environ cli cls ≡ ok r
    → find p r
      ≡ or_else
          (ask (load_cli cli) ("" ∷ []) p)
          (or_else (ask (load_envvar upper environ) (prefix ∷ []) p) (find p f))
unfolding load_config load_config_from_environment load_config_from_cli combine_all
load_config-find upper prefix file environ cli f cls p {r} u h is_file unique plain_cli e =
    let env = walk_config_class (load_envvar upper environ) (prefix ∷ []) end cls in
    let args = walk_config_class (load_cli cli) ("" ∷ []) end cls in
    let all : combine_all end (f ∷ env ∷ args ∷ []) ≡ ok r =
      subst (λ v. (items_of v >>= λ d. combine_all end (d ∷ env ∷ args ∷ [])) ≡ ok r) is_file e in
    let rest : (combine_into f env >>= λ d. combine_all d (args ∷ [])) ≡ ok r =
      subst (λ x. (x >>= λ d. combine_all d (env ∷ args ∷ [])) ≡ ok r) (combine_into-end f unique)
        all in
    let (m, first, then_args) =
      >>=-eq-ok (combine_into f env) (λ d. combine_all d (args ∷ [])) rest in
    let (r', second, last) = >>=-eq-ok (combine_into m args) (λ d. combine_all d []) then_args in
    find-layer (load_cli cli) (load_cli-AllPlain cli plain_cli) p cls ("" ∷ []) m u h
      (second ∙ last)
    ∙ ap (or_else (ask (load_cli cli) ("" ∷ []) p)) (
        find-layer (load_envvar upper environ) (load_envvar-AllPlain upper environ) p cls
          (prefix ∷ []) f u h first)
