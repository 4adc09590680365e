-- ===== src/Router/Routing.antt =====
-- Where `ToAddressRouter` (src/vumi2/routers.py) routes messages and events.
use vumi.Prelude.{
  ℕ, String, Bool, true, false, ◌≤◌, ◌≡◌, refl, sym, ap, ◌∙◌, Option, none, some, List, [], ◌∷◌,
  ◌++◌, contains, string_eq, beq_self, Result, ok, err, key_error, if◌then◌else◌, Bool-cases, inl,
  inr, ◌⊎◌, ◌==◌, arith,
}
use mathlib.Core.Path.{subst}
use vumi.Messages.{Message, Event}
use vumi.Cache.TimeoutDict.{is_expired}
use vumi.Cache.TimeoutDict.Expiry.{IsValid}
use vumi.Cache.TimeoutDict.Laws.{view-set_item, get_item-eq-view, methods-IsValid, IsValid-later}
use vumi.Cache.MessageCache.{MemoryMessageCache, store_outbound, fetch_outbound}
use vumi.Workers.{Worker}
use vumi.Router.{
  ToAddressMapping, Config, Routed, inbound, event, outbound, Mappings, Router, truthy, setup,
  matched_mapping_name, app_name, publish, route, handle_inbound_message, handle_event,
  handle_outbound_message,
}
use vumi.Router.Setup.{Known, setup-Known, Compiled, setup-Compiled}

matched_Known :
    (mappings : Mappings) (default_app : Option String) (w : Worker) (addr app : String)
    → Known mappings w
    → ((a : String) → truthy default_app ≡ some a → contains w.receive_outbound_connectors a ≡ true)
    → truthy (matched_mapping_name mappings default_app addr) ≡ some app
    → contains w.receive_outbound_connectors app ≡ true
unfolding matched_mapping_name
matched_Known [] default_app w addr app ks d h = d app h
matched_Known ((name, pattern) ∷ ms) default_app w addr app (k, ks) d h =
    elim (Bool-cases (pattern addr)) [
      | inl yes_it ↦
          subst (λ (a : String). contains w.receive_outbound_connectors a ≡ true)
            (truthy_some name app (
              subst
                (λ (b : Bool).
                  truthy (if b then some name else matched_mapping_name ms default_app addr)
                  ≡ some app)
                yes_it h))
            k
      | inr no_it ↦ matched_Known ms default_app w addr app ks d (
          subst
            (λ (b : Bool).
              truthy (if b then some name else matched_mapping_name ms default_app addr) ≡ some app)
            no_it h)
    ]
  where
    truthy_some : (n a : String) → truthy (some n) ≡ some a → n ≡ a
    truthy_some n a p = ground arith

-- What is routed to: the app's connector, or nothing where there is no app.
abbrev pub routed : Option String → (String → Routed) → Router → Router
routed none make r = r
routed (some app) make r = publish (make app) r

route_lem :
    (o : Option String) (make : String → Routed) (r : Router)
    → ((app : String) → o ≡ some app → contains r.worker.receive_outbound_connectors app ≡ true)
    → route o make r ≡ (ok tt, routed o make r)
unfolding route
route_lem none make r h = refl
route_lem (some app) make r h = rw (h app refl) refl

module _ (compile : String → Result (String → Bool)) (config : Config) (cache : MemoryMessageCache)
    (r : Router) (ready : setup compile config cache ≡ ok r) where
  -- The app that a configuration gives for an address: that of the first mapping whose pattern
  -- matches it, or else the default app.
  abbrev pub Chosen : List ToAddressMapping → String → Option String → Type 0
  Chosen [] addr app = app ≡ config.default_app
  Chosen (m ∷ ms) addr app =
      (pattern : String → Bool) × (compile m.pattern ≡ ok pattern)
      × (((pattern addr ≡ true) × (app ≡ some m.name))
          ⊎ ((pattern addr ≡ false) × Chosen ms addr app))

  matched-Chosen :
      (ms : List ToAddressMapping) (mappings : Mappings) (addr : String)
      → Compiled compile ms mappings
      → Chosen ms addr (matched_mapping_name mappings config.default_app addr)
  unfolding matched_mapping_name
  matched-Chosen [] [] addr c = refl
  matched-Chosen [] (p ∷ ps) addr c = absurd c
  matched-Chosen (m ∷ ms) [] addr c = absurd c
  matched-Chosen (m ∷ ms) ((name, pattern) ∷ ps) addr (c, same, cs) = (
    pattern,
    c,
    elim (Bool-cases (pattern addr)) [
      | inl yes_it ↦ inl (yes_it, rw yes_it (ap some same))
      | inr no_it ↦ inr (no_it, rw no_it (matched-Chosen ms ps addr cs))
    ],
  )

  -- A name is an app unless it is empty.
  abbrev pub to_app : Option String → (String → Routed) → Router
  to_app none make = r
  to_app (some name) make =
      if name == "" then r else record r { published = r.published ++ (make name ∷ []) }

  to_app-eq :
      (o : Option String) (make : String → Routed) → routed (truthy o) make r ≡ to_app o make
  to_app-eq none make = refl
  to_app-eq (some name) make = elim (Bool-cases (name == "")) [
    | inl e ↦ rw e refl
    | inr e ↦ rw e refl
  ]

  handle_inbound_message_app :
      (m : Message)
      → handle_inbound_message m r ≡ (ok tt, routed (app_name r m.to_addr) (λ app. inbound app m) r)
  unfolding handle_inbound_message
  handle_inbound_message_app m =
      let (ks, d) = setup-Known compile config cache r ready in
      route_lem (app_name r m.to_addr) (λ app. inbound app m) r
        (λ app p. matched_Known r.mappings r.config.default_app r.worker m.to_addr app ks d p)

  -- In a router that was set up, an inbound message goes to the app of the first mapping of the
  -- configuration whose pattern matches its `to_addr`, or to the default app if none matches. It is
  -- published nowhere if there is no app or its name is empty. It raises no `KeyError`: each of
  -- these apps has a connector.
  pub handle_inbound_message_lem :
      (m : Message)
      → (app : Option String) × Chosen config.to_address_mappings m.to_addr app
        × (handle_inbound_message m r ≡ (ok tt, to_app app (λ name. inbound name m)))
  handle_inbound_message_lem m =
      let (compiled, same) = setup-Compiled compile config cache r ready in
      let app = matched_mapping_name r.mappings r.config.default_app m.to_addr in
      (
        app,
        subst
            (λ (c : Config).
              Chosen config.to_address_mappings m.to_addr
                (matched_mapping_name r.mappings c.default_app m.to_addr))
            (sym same) (matched-Chosen config.to_address_mappings r.mappings m.to_addr compiled),
        handle_inbound_message_app m
            ∙ ap (λ (x : Router). (ok tt, x)) (to_app-eq app (λ name. inbound name m)),
      )

  -- The router in any later state of its cache.
  abbrev pub with_cache : MemoryMessageCache → List Routed → Router
  with_cache c published = record r { message_cache = c; published = published }

  handle_event_found :
      (now : ℕ) (e : Event) (o : Message) (c : MemoryMessageCache) (p : List Routed)
      → (fetch_outbound now e.user_message_id c).0 ≡ some o
      → handle_event now e (with_cache c p) ≡ (
        ok tt,
        routed
            (app_name r o.from_addr)
            (λ app. event app e)
            (with_cache (fetch_outbound now e.user_message_id c).1 p),
      )
  unfolding handle_event
  handle_event_found now e o c p found =
      let r' = with_cache (fetch_outbound now e.user_message_id c).1 p in
      let (ks, d) = setup-Known compile config cache r ready in
      ap
        (λ (f : Option Message). elim f [
          | none ↦ (ok tt, r')
          | some o ↦ route (app_name r o.from_addr) (λ app. event app e) r'
        ])
        found
      ∙ route_lem (app_name r o.from_addr) (λ app. event app e) r'
          (λ app p'. matched_Known r.mappings r.config.default_app r.worker o.from_addr app ks d p')

  fetch_outbound-store_outbound :
      (now stamp later : ℕ) (o : Message) (c : MemoryMessageCache)
      → now ≤ stamp
      → stamp ≤ later
      → IsValid now c.outbounds
      → is_expired later c.outbounds.timeout stamp ≡ false
      → (fetch_outbound later o.message_id (store_outbound now stamp o c)).0 ≡ some o
  unfolding fetch_outbound store_outbound
  fetch_outbound-store_outbound now stamp later o c b d h fresh =
      (get_item-eq-view later o.message_id _
        (IsValid-later d (methods-IsValid now stamp o.message_id o c.outbounds b h).0))
      ∙ view-set_item now stamp later o.message_id o.message_id o c.outbounds b d h
      ∙ rw (beq_self o.message_id, fresh) refl

  outbound_with_cache :
      (now stamp : ℕ) (o : Message) (c : MemoryMessageCache) (p : List Routed)
      → (p' : List Routed) × ((handle_outbound_message now stamp o (with_cache c p)).1
          ≡ with_cache (store_outbound now stamp o c) p')
  unfolding handle_outbound_message
  outbound_with_cache now stamp o c p =
      go (contains r.worker.receive_inbound_connectors o.transport_name)
    where
      go :
          (b : Bool)
          → (p' : List Routed) × ((if◌then◌else◌ {A = Result (Unit {0}) × Router} b
                (
                  ok tt,
                  publish
                      (outbound o.transport_name o)
                      (with_cache (store_outbound now stamp o c) p),
                )
                (err key_error, with_cache (store_outbound now stamp o c) p)).1
              ≡ with_cache (store_outbound now stamp o c) p')
      go true = (p ++ (outbound o.transport_name o ∷ []), refl)
      go false = (p, refl)

  routed-published :
      (a : Option String) (make : String → Routed) (c c' : MemoryMessageCache) (p : List Routed)
      → (routed a make (with_cache c p)).published ≡ (routed a make (with_cache c' p)).published
  routed-published none make c c' p = refl
  routed-published (some app) make c c' p = refl

  -- In a router that was set up, an event on a message that the router has sent out, before the
  -- timeout of a valid cache, goes to the app that messages to the `from_addr` of that message go
  -- to.
  pub handle_event_after_outbound :
      (now stamp later : ℕ) (o : Message) (e : Event) (c : MemoryMessageCache) (p : List Routed)
      → now ≤ stamp
      → stamp ≤ later
      → IsValid now c.outbounds
      → is_expired later c.outbounds.timeout stamp ≡ false
      → e.user_message_id ≡ o.message_id
      → ((handle_event later e (handle_outbound_message now stamp o (with_cache c p)).1).0 ≡ ok tt)
        × ((handle_event later e
              (handle_outbound_message now stamp o (with_cache c p)).1).1.published
            ≡ (routed
                (app_name r o.from_addr)
                (λ app. event app e)
                (handle_outbound_message now stamp o (with_cache c p)).1).published)
  handle_event_after_outbound now stamp later o e c p b d h fresh same =
      let (p', shape) = outbound_with_cache now stamp o c p in
      let stored = store_outbound now stamp o c in
      let run = handle_event_found later e o stored p' (
        ap (λ (id : String). (fetch_outbound later id stored).0) same
        ∙ fetch_outbound-store_outbound now stamp later o c b d h fresh) in
      subst
        (λ (q : Router).
          ((handle_event later e q).0 ≡ ok tt)
          × ((handle_event later e q).1.published
              ≡ (routed (app_name r o.from_addr) (λ app. event app e) q).published))
        (sym shape)
        (
          ap (λ (x : Result (Unit {0}) × Router). x.0) run,
          ap (λ (x : Result (Unit {0}) × Router). x.1.published) run
              ∙ routed-published (app_name r o.from_addr) (λ app. event app e)
                  (fetch_outbound later e.user_message_id stored).1 stored p',
        )
