-- ===== src/Workers/Health.antt =====
-- The health check of `BaseWorker` in src/vumi2/workers.py. A check is its name with what its
-- function gives: a dictionary, or the exception that it raises.
use text.Mathlib.TextEquality.{eq_iff}
use vumi.Prelude.{
  ℕ, String, Bool, true, false, Option, none, some, List, [], ◌∷◌, map, ◌==◌, string_eq, Result, ok,
  ◌>>=◌, ◌≡◌, refl, sym, ap, ◌∙◌, if◌then◌else◌, Bool-cases, inl, inr,
}
use vumi.Prelude.Dict.{NodupKeys, lookup, lookup_of_Absent}
use vumi.Messages.Value.{Value, Fields, end, field, obj, str, get, put, item}
use vumi.Messages.Value.Laws.{get-put}

-- The states of an `AmqpProtocol`.
pub data ConnectionState : Type 0 where
  amqp_connecting amqp_open amqp_closing amqp_closed : ConnectionState

abbrev pub state_name : ConnectionState → String
state_name amqp_connecting = "connecting"
state_name amqp_open = "open"
state_name amqp_closing = "closing"
state_name amqp_closed = "closed"

-- `_amqp_healthcheck`
unfoldable pub amqp_healthcheck : (server_properties : Value) → ConnectionState → Fields
unfolding put
amqp_healthcheck server_properties connection_state =
    let result = field "health" (str "ok") (field "server_properties" server_properties end) in
    let state = state_name connection_state in
    let result' = put "state" (str state) result in
    if state == "open" then result' else put "health" (str "down") result'

-- `value == text`
abbrev pub equals : Value → String → Bool
equals (str s) text = s == text
equals _ text = false

-- The loop of `_healthcheck_request`, on `response["health"]` and `response["components"]`.
unfoldable pub check_all :
    List (String × Result Fields)
    → (health : String) → (components : Fields) → Result (String × Fields)
unfolding item put
check_all [] health components = ok (health, components)
check_all ((name, function) ∷ checks) health components = function >>= λ result.
    item "health" (obj result) >>= λ h.
    check_all checks (if equals h "ok" then health else "down") (put name (obj result) components)

-- `_healthcheck_request`: the response and the status.
unfoldable pub healthcheck_request : List (String × Result Fields) → Result (Fields × ℕ)
unfolding check_all
healthcheck_request healthchecks = check_all healthchecks "ok" end >>= λ r.
    ok (
      field "health" (str r.0) (field "components" (obj r.1) end),
      if r.0 == "ok" then 200 else 500,
    )

-- Checks that return.
abbrev pub returning : List (String × Fields) → List (String × Result Fields)
returning checks = map (λ (c : String × Fields). (c.0, ok c.1)) checks

-- What `health` says in a result.
abbrev pub IsReported : Fields → String → Type 0
IsReported f s = get "health" f ≡ some (str s)

-- Results that each say something under `health`.
abbrev pub AllReport : List (String × Fields) → List String → Type 0
AllReport [] [] = Unit
AllReport (c ∷ cs) (s ∷ ss) = IsReported c.1 s × AllReport cs ss
AllReport _ _ = ⊥

abbrev pub all_ok : List String → Bool
all_ok [] = true
all_ok (s ∷ ss) = let rest = all_ok ss in if s == "ok" then rest else false

abbrev pub put_all : List (String × Fields) → Fields → Fields
put_all [] components = components
put_all ((name, f) ∷ checks) components = put_all checks (put name (obj f) components)

item_reported : (f : Fields) (s : String) → IsReported f s → item "health" (obj f) ≡ ok (str s)
unfolding item
item_reported f s h = rw (h, item) refl

check_all-returning :
    (checks : List (String × Fields)) (ss : List String) (health : String) (components : Fields)
    → AllReport checks ss
    → check_all (returning checks) health components
      ≡ ok (if all_ok ss then health else "down", put_all checks components)
unfolding check_all
check_all-returning [] [] health components h = refl
check_all-returning [] (s ∷ ss) health components h = absurd h
check_all-returning (c ∷ checks) [] health components h = absurd h
check_all-returning ((name, f) ∷ checks) (s ∷ ss) health components h =
    rw (item_reported f s h.0) (
      check_all-returning checks ss (if s == "ok" then health else "down")
        (put name (obj f) components) h.1)
    ∙ ap (λ x. ok (x, put_all checks (put name (obj f) components))) (flags (s == "ok") (all_ok ss))
  where
    flags :
        (b c : Bool)
        → (if c then (if b then health else "down") else "down")
          ≡ (if (if b then c else false) then health else "down")
    flags true true = refl
    flags true false = refl
    flags false true = refl
    flags false false = refl

-- What stands under a name in `response["components"]`.
abbrev pub component : Option Fields → Option Value → Option Value
component none before = before
component (some f) before = some (obj f)

get-put_all :
    (name : String) (checks : List (String × Fields)) (components : Fields)
    → NodupKeys checks
    → get name (put_all checks components) ≡ component (lookup name checks) (get name components)
unfolding lookup
get-put_all name [] components u = refl
get-put_all name ((j, f) ∷ checks) components u = elim (Bool-cases (j == name)) [
  | inl e ↦
      get-put_all name checks (put j (obj f) components) u.1
      ∙ rw (e, absent e) (get-put name j (obj f) components ∙ rw e refl)
  | inr e ↦
      get-put_all name checks (put j (obj f) components) u.1
      ∙ rw e (ap (component (lookup name checks)) (get-put name j (obj f) components ∙ rw e refl))
]
  where
    absent : (j == name) ≡ true → lookup name checks ≡ none
    absent e = ap (λ k. lookup k checks) (sym ((eq_iff j name).0 e)) ∙ lookup_of_Absent j checks u.0

-- Where every check returns a dictionary with a text under `health`, and no two have the same
-- name, the response says `ok` with status 200 if all those texts are `ok`, and `down` with status
-- 500 otherwise; and its components are the results by the names of their checks.
pub healthcheck_request-returning :
    (checks : List (String × Fields)) (ss : List String)
    → NodupKeys checks
    → AllReport checks ss
    → (components : Fields) × ((healthcheck_request (returning checks)
          ≡ ok (
            field "health"
                (str (if all_ok ss then "ok" else "down"))
                (field "components" (obj components) end),
            if all_ok ss then 200 else 500,
          ))
        × ((name : String) → get name components ≡ component (lookup name checks) none))
unfolding healthcheck_request get
healthcheck_request-returning checks ss u h = (
  put_all checks end,
  (
    rw (check_all-returning checks ss "ok" end h) (status (all_ok ss)),
    λ name. get-put_all name checks end u,
  ),
)
  where
    status :
        (b : Bool)
        → Path
            (Result (Fields × ℕ))
            (ok (
              field "health"
                  (str (if b then "ok" else "down"))
                  (field "components" (obj (put_all checks end)) end),
              if ◌==◌ {T = String} (if b then "ok" else "down") "ok" then 200 else 500,
            ))
            (ok (
              field "health"
                  (str (if b then "ok" else "down"))
                  (field "components" (obj (put_all checks end)) end),
              if b then 200 else 500,
            ))
    status true = refl
    status false = refl

-- A worker that only checks its AMQP connection answers 200 while the connection is open, and 500
-- in each other state, with the state's name in the result.
pub healthcheck_request-amqp :
    (server_properties : Value) (state : ConnectionState)
    → let result = amqp_healthcheck server_properties state in
      (healthcheck_request (("amqp", ok result) ∷ [])
        ≡ ok (
          field "health"
              (str (if state_name state == "open" then "ok" else "down"))
              (field "components" (obj (field "amqp" (obj result) end)) end),
          if state_name state == "open" then 200 else 500,
        ))
      × (get "state" result ≡ some (str (state_name state)))
unfolding healthcheck_request check_all amqp_healthcheck put get item
healthcheck_request-amqp v amqp_connecting = (refl, refl)
healthcheck_request-amqp v amqp_open = (refl, refl)
healthcheck_request-amqp v amqp_closing = (refl, refl)
healthcheck_request-amqp v amqp_closed = (refl, refl)
