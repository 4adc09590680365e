-- ===== src/Router/Setup.antt =====
-- What `setup` of `ToAddressRouter` (src/vumi2/routers.py) leaves for the routing.
use vumi.Prelude.{
  String, Bool, true, false, ◌≡◌, refl, sym, ap, ◌∙◌, Option, none, some, List, [], ◌∷◌, ◌++◌,
  contains, string_eq, beq_self, Result, ok, err, Error, >>=-eq-ok, if◌then◌else◌, All, arith,
}
use mathlib.Core.Path.{subst}
use mathlib.Core.List.{append-nil, append_assoc}
use vumi.Cache.MessageCache.{MemoryMessageCache}
use vumi.Workers.{Worker, setup_receive_inbound_connector, setup_receive_outbound_connector}
use vumi.Workers
use vumi.Router.{
  ToAddressMapping, Config, Mappings, Router, truthy, setup_mappings, setup_default,
  setup_transports, setup,
}

contains-grow :
    (xs : List String) (b a : String) → contains xs a ≡ true → contains (xs ++ (b ∷ [])) a ≡ true
contains-grow [] b a h = cc
contains-grow (x ∷ xs) b a h = ground (arith, contains-grow xs b a)

contains-last : (xs : List String) (a : String) → contains (xs ++ (a ∷ [])) a ≡ true
contains-last [] a = rw (beq_self a) refl
contains-last (x ∷ xs) a = ground (arith, contains-last xs a)

-- The connectors that apps are reached by only become more.
abbrev Grows : Worker → Worker → Type 0
Grows w w' =
    (a : String)
    → contains w.receive_outbound_connectors a ≡ true
    → contains w'.receive_outbound_connectors a ≡ true

ok_injective : {A : Type 0} {a b : A} → ok a ≡ ok b → a ≡ b
ok_injective h = cc

else_ok :
    {A : Type 0} (b : Bool) (e : Error) (a a' : A)
    → (if b then err e else ok a) ≡ ok a'
    → (a ≡ a') × (b ≡ false)
else_ok true e a a' h = cc
else_ok false e a a' h = (cc, refl)

-- The name is new, and then it is there.
outbound_connector_lem :
    (name : String) (w w' : Worker)
    → setup_receive_outbound_connector name w ≡ ok w'
    → (contains w.receive_outbound_connectors name ≡ false)
      × (contains w'.receive_outbound_connectors name ≡ true)
      × Grows w w'
unfolding setup_receive_outbound_connector
outbound_connector_lem name w w' h =
    let (same, fresh) = else_ok (contains w.receive_outbound_connectors name) _ _ w' h in
    let ws = w.receive_outbound_connectors in
    (
      fresh,
      subst (λ (x : Worker). contains x.receive_outbound_connectors name ≡ true) same
          (contains-last ws name),
      subst (Grows w) same (λ a old. contains-grow ws name a old),
    )

inbound_connector_lem :
    (name : String) (w w' : Worker) → setup_receive_inbound_connector name w ≡ ok w' → Grows w w'
unfolding setup_receive_inbound_connector
inbound_connector_lem name w w' h =
    let (same, fresh) = else_ok (contains w.receive_inbound_connectors name) _ _ w' h in
    subst (Grows w) same (λ a old. old)

-- Every app that a mapping names has a connector.
abbrev pub Known : Mappings → Worker → Type 0
Known mappings w =
    All (λ (m : String × (String → Bool)). contains w.receive_outbound_connectors m.0 ≡ true)
      mappings

Known-Grows :
    (mappings : Mappings) (w w' : Worker) → Grows w w' → Known mappings w → Known mappings w'
Known-Grows [] w w' g k = tt
Known-Grows (m ∷ ms) w w' g (k, ks) = (g m.0 k, Known-Grows ms w w' g ks)

Known-append :
    (mappings : Mappings) (m : String × (String → Bool)) (w : Worker)
    → Known mappings w
    → contains w.receive_outbound_connectors m.0 ≡ true
    → Known (mappings ++ (m ∷ [])) w
Known-append [] m w ks k = (k, tt)
Known-append (x ∷ xs) m w (k', ks) k = (k', Known-append xs m w ks k)

module _ (compile : String → Result (String → Bool)) where
  setup_mappings-Known :
      (ms : List ToAddressMapping) (mappings : Mappings) (w : Worker) (r : Mappings × Worker)
      → setup_mappings compile ms mappings w ≡ ok r
      → Known mappings w
      → Known r.0 r.1
  unfolding setup_mappings
  setup_mappings-Known [] mappings w r h ks =
      subst (λ (x : Mappings × Worker). Known x.0 x.1) (ok_injective h) ks
  setup_mappings-Known (m ∷ ms) mappings w r h ks =
      let (pattern, c, rest) = >>=-eq-ok (compile m.pattern) _ h in
      let (w', s, next) = >>=-eq-ok (setup_receive_outbound_connector m.name w) _ rest in
      let (fresh, there, grows) = outbound_connector_lem m.name w w' s in
      setup_mappings-Known ms _ w' r next
        (Known-append mappings (m.name, pattern) w' (Known-Grows mappings w w' grows ks) there)

  ensured :
      (name : String) (w w' : Worker) (b : Bool)
      → contains w.receive_outbound_connectors name ≡ b
      → (if b then ok w else setup_receive_outbound_connector name w) ≡ ok w'
      → Grows w w' × (contains w'.receive_outbound_connectors name ≡ true)
  ensured name w w' true there h =
      let same : w ≡ w' = ok_injective h in
      (
        subst (Grows w) same (λ a old. old),
        subst (λ (x : Worker). contains x.receive_outbound_connectors name ≡ true) same there,
      )
  ensured name w w' false there h =
      let (fresh, now_there, grows) = outbound_connector_lem name w w' h in (grows, now_there)

  setup_default_lem :
      (default_app : Option String) (w w' : Worker)
      → setup_default compile default_app w ≡ ok w'
      → Grows w w'
        × ((app : String)
            → truthy default_app ≡ some app
            → contains w'.receive_outbound_connectors app ≡ true)
  unfolding setup_default
  setup_default_lem default_app w w' h = by_app (truthy default_app) refl h
    where
      by_app :
          (o : Option String)
          → truthy default_app ≡ o
          → elim o [
            | none ↦ ok w
            | some name ↦
                if contains w.receive_outbound_connectors name
                then ok w
                else setup_receive_outbound_connector name w
          ]
            ≡ ok w'
          → Grows w w'
            × ((app : String)
                → truthy default_app ≡ some app
                → contains w'.receive_outbound_connectors app ≡ true)
      by_app none e h' = (subst (Grows w) (ok_injective h') (λ a old. old), λ app p. cc)
      by_app (some name) e h' =
          let (grows, there) =
            ensured name w w' (contains w.receive_outbound_connectors name) refl h' in
          (
            grows,
            λ app p.
                let same : name ≡ app = cc in
                subst (λ (a : String). contains w'.receive_outbound_connectors a ≡ true) same there,
          )

  setup_transports_lem :
      (names : List String) (w w' : Worker) → setup_transports compile names w ≡ ok w' → Grows w w'
  unfolding setup_transports
  setup_transports_lem [] w w' h = subst (Grows w) (ok_injective h) (λ a old. old)
  setup_transports_lem (n ∷ ns) w w' h =
      let (w'', s, next) = >>=-eq-ok (setup_receive_inbound_connector n w) _ h in
      λ a old. setup_transports_lem ns w'' w' next a (inbound_connector_lem n w w'' s a old)

  -- What `setup` leaves: a connector for every app of the mappings and for the default app.
  pub setup-Known :
      (config : Config) (cache : MemoryMessageCache) (r : Router)
      → setup compile config cache ≡ ok r
      → Known r.mappings r.worker
        × ((app : String)
            → truthy r.config.default_app ≡ some app
            → contains r.worker.receive_outbound_connectors app ≡ true)
  unfolding setup
  setup-Known config cache r h =
      let ((mappings, w), a, rest) =
        >>=-eq-ok (setup_mappings compile config.to_address_mappings [] Workers.new) _ h in
      let (w', b, rest') = >>=-eq-ok (setup_default compile config.default_app w) _ rest in
      let (w'', c, last) = >>=-eq-ok (setup_transports compile config.transport_names w') _ rest' in
      let (grows, default_there) = setup_default_lem config.default_app w w' b in
      let grows' = setup_transports_lem config.transport_names w' w'' c in
      subst
        (λ (x : Router).
          Known x.mappings x.worker
          × ((app : String)
              → truthy x.config.default_app ≡ some app
              → contains x.worker.receive_outbound_connectors app ≡ true))
        (ok_injective last)
        (
          Known-Grows mappings w' w'' grows' (
              Known-Grows mappings w w' grows (
                setup_mappings-Known config.to_address_mappings [] Workers.new (mappings, w) a tt)),
          λ app p. grows' app (default_there app p),
        )

  -- The mappings of the configuration with their compiled patterns, in their order.
  abbrev pub Compiled : List ToAddressMapping → Mappings → Type 0
  Compiled [] [] = Unit
  Compiled (m ∷ ms) ((name, pattern) ∷ ps) =
      (compile m.pattern ≡ ok pattern) × (name ≡ m.name) × Compiled ms ps
  Compiled _ _ = ⊥

  setup_mappings-Compiled :
      (ms : List ToAddressMapping) (mappings : Mappings) (w : Worker) (r : Mappings × Worker)
      → setup_mappings compile ms mappings w ≡ ok r
      → (added : Mappings) × (r.0 ≡ mappings ++ added) × Compiled ms added
  unfolding setup_mappings
  setup_mappings-Compiled [] mappings w r h = (
    [],
    ap (λ (x : Mappings × Worker). x.0) (sym (ok_injective h)) ∙ sym (append-nil mappings),
    tt,
  )
  setup_mappings-Compiled (m ∷ ms) mappings w r h =
      let (pattern, c, rest) = >>=-eq-ok (compile m.pattern) _ h in
      let (w', s, next) = >>=-eq-ok (setup_receive_outbound_connector m.name w) _ rest in
      let (added, same, good) =
        setup_mappings-Compiled ms (mappings ++ ((m.name, pattern) ∷ [])) w' r next in
      (
        (m.name, pattern) ∷ added,
        same ∙ append_assoc mappings ((m.name, pattern) ∷ []) added,
        (c, refl, good),
      )

  -- The mappings that the router has are those of its configuration.
  pub setup-Compiled :
      (config : Config) (cache : MemoryMessageCache) (r : Router)
      → setup compile config cache ≡ ok r
      → Compiled config.to_address_mappings r.mappings × (r.config ≡ config)
  unfolding setup
  setup-Compiled config cache r h =
      let ((mappings, w), a, rest) =
        >>=-eq-ok (setup_mappings compile config.to_address_mappings [] Workers.new) _ h in
      let (w', b, rest') = >>=-eq-ok (setup_default compile config.default_app w) _ rest in
      let (w'', c, last) = >>=-eq-ok (setup_transports compile config.transport_names w') _ rest' in
      let (added, same, good) =
        setup_mappings-Compiled config.to_address_mappings [] Workers.new (mappings, w) a in
      let done = ok_injective last in
      (
        subst (Compiled config.to_address_mappings)
            (sym same ∙ ap (λ (x : Router). x.mappings) done) good,
        ap (λ (x : Router). x.config) (sym done),
      )
