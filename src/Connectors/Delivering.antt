-- ===== src/Connectors/Delivering.antt =====
-- Which handlers get what a connector of src/vumi2/connectors.py publishes.
use text.Mathlib.TextEquality.{eq_iff}
use vumi.Prelude.{
  ◌≡◌, refl, sym, ap, ◌∙◌, inl, inr, String, List, [], ◌∷◌, ◌++◌, map, Option, none, some, ok, ◌==◌,
  ◌&&◌, string_eq, arith, Bool-cases, if◌then◌else◌,
}
use vumi.Prelude.Dict.{NodupKeys, lookup, lookup_of_Absent, insert}
use vumi.Messages.{Message, Event}
use vumi.Connectors.Base.{
  MessageType, message, event, Publication, BaseConnector, routing_key, setup_consumer,
  setup_publisher, setup_receive_inbound, setup_receive_outbound, publish_outbound, publish_inbound,
  publish_event, publish_message, receivers, new,
}
use vumi.Connectors.Pairing.{IsMessageType, routing_key-inj}

-- The handlers of an application for one connector, and its connectors.
pub record Handlers : Type 0 where
  pub inbound_handler : String
  pub event_handler : String

abbrev pub applications : List (String × Handlers) → List BaseConnector
applications apps =
    map (λ (a : String × Handlers). setup_receive_inbound a.0 a.1.inbound_handler a.1.event_handler)
      apps

abbrev pub published_as : (name message_type : String) → MessageType → Publication
published_as name t m = record { routing_key = routing_key name t; payload = m }

routing_key-eq :
    (n m t u : String)
    → IsMessageType t
    → IsMessageType u
    → (routing_key n t == routing_key m u) ≡ ((n == m) && (t == u))
routing_key-eq n m t u ht hu = ground (
  arith,
  eq_iff (routing_key n t) (routing_key m u),
  eq_iff n m,
  eq_iff t u,
  routing_key-inj n m t u ht hu,
  keys,
)
  where
    keys : n ≡ m → t ≡ u → routing_key n t ≡ routing_key m u
    keys p q = λ i. routing_key (p i) (q i)

-- The handler for one of the message types that an application consumes.
abbrev pub handler : String → Handlers → List String
handler t h =
    if "inbound" == t
    then h.inbound_handler ∷ []
    else if "event" == t
    then h.event_handler ∷ []
    else []

abbrev pub transports : List (String × String) → List BaseConnector
transports ts = map (λ (a : String × String). setup_receive_outbound a.0 a.1) ts

-- The handler of a transport, which consumes one message type.
abbrev pub outbound_only : String → String → List String
outbound_only t handler = if "outbound" == t then handler ∷ [] else []

-- What a function gives on the value of a key, if it is there.
abbrev found : {A : Type 0} → (A → List String) → Option A → List String
found f none = []
found f (some a) = f a

receivers-cons_inbound :
    (n m t : String) (h : Handlers) (p : MessageType) (cs : List BaseConnector)
    → IsMessageType t
    → receivers
        (setup_receive_inbound m h.inbound_handler h.event_handler ∷ cs)
        (published_as n t p)
      ≡ (if m == n then handler t h else []) ++ receivers cs (published_as n t p)
unfolding receivers setup_receive_inbound setup_publisher setup_consumer new insert
receivers-cons_inbound n m t h p cs ht =
    rw
      (
        routing_key-eq m n "inbound" t (inl refl) ht,
        routing_key-eq m n "event" t (inr (inr refl)) ht,
      )
      (elim ht [
        | inl q ↦ rw q (ground arith)
        | inr r ↦ elim r [ inl q ↦ rw q (ground arith) | inr q ↦ rw q (ground arith) ]
      ])

receivers-cons_outbound :
    (n m t k : String) (p : MessageType) (cs : List BaseConnector)
    → IsMessageType t
    → receivers (setup_receive_outbound m k ∷ cs) (published_as n t p)
      ≡ (if m == n then outbound_only t k else []) ++ receivers cs (published_as n t p)
unfolding receivers setup_receive_outbound setup_publisher setup_consumer new insert
receivers-cons_outbound n m t k p cs ht =
    rw (routing_key-eq m n "outbound" t (inr (inl refl)) ht) (ground arith)

merged :
    {A : Type 0} (f : A → List String) (m n : String) (a : A) (o : Option A) (rest : List String)
    → (m ≡ n → o ≡ none)
    → (if m == n then f a else []) ++ (found f o ++ rest)
      ≡ found f (if m == n then some a else o) ++ rest
merged f m n a o rest h = elim (Bool-cases (m == n)) [
  | inl e ↦ rw (e, h ((eq_iff m n).0 e)) refl
  | inr e ↦ rw e refl
]

-- The connectors made from a dict, where each adds the handlers that its value gives.
module _ {A : Type 0} (connect : String × A → BaseConnector) (f : A → List String) (n : String)
    (p : Publication)
    (step : (m : String) (a : A) (cs : List BaseConnector)
      → receivers (connect (m, a) ∷ cs) p ≡ (if m == n then f a else []) ++ receivers cs p) where
  receivers-map :
      (l : List (String × A)) (rest : List BaseConnector)
      → NodupKeys l
      → receivers (map connect l ++ rest) p ≡ found f (lookup n l) ++ receivers rest p
  unfolding lookup
  receivers-map [] rest u = refl
  receivers-map ((m, a) ∷ l) rest u =
      step m a (map connect l ++ rest)
      ∙ (ap (λ r. (if m == n then f a else []) ++ r) (receivers-map l rest u.1)
          ∙ merged f m n a (lookup n l) (receivers rest p)
              (λ e. ap (λ k. lookup k l) (sym e) ∙ lookup_of_Absent m l u.0))

-- All the connectors of a system.
abbrev pub system : List (String × Handlers) → List (String × String) → List BaseConnector
system apps ts = applications apps ++ (transports ts ++ [])

pub receivers-system :
    (apps : List (String × Handlers)) (ts : List (String × String)) (n : String) (h : Handlers)
    (k : String)
    → NodupKeys apps
    → NodupKeys ts
    → lookup n apps ≡ some h
    → lookup n ts ≡ some k
    → (t : String) (p : MessageType) → IsMessageType t
    → receivers (system apps ts) (published_as n t p) ≡ handler t h ++ (outbound_only t k ++ [])
unfolding receivers
receivers-system apps ts n h k ua ut ha ht t p i =
    receivers-map (λ a. setup_receive_inbound a.0 a.1.inbound_handler a.1.event_handler) (handler t)
      n (published_as n t p) (λ m a cs. receivers-cons_inbound n m t a p cs i) apps
      (transports ts ++ []) ua
    ∙ rw
        (
          ha,
          receivers-map (λ a. setup_receive_outbound a.0 a.1) (outbound_only t) n
              (published_as n t p) (λ m a cs. receivers-cons_outbound n m t a p cs i) ts [] ut,
          ht,
        )
        refl

-- Publications of the three message types, between transports and applications whose connectors
-- have the same name: each is put on the exchange under the key of that name and type, and among
-- all the consumers exactly one handler gets it, an application's `inbound_handler` or
-- `event_handler` for what a transport publishes, the transport's `outbound_handler` for what an
-- application publishes.
pub receivers-publish :
    (apps : List (String × Handlers)) (ts : List (String × String)) (n : String) (h : Handlers)
    (k : String) (m : Message) (e : Event) (before : List Publication)
    → NodupKeys apps
    → NodupKeys ts
    → lookup n apps ≡ some h
    → lookup n ts ≡ some k
    → let all = system apps ts in
      let transport = setup_receive_outbound n k in
      let application = setup_receive_inbound n h.inbound_handler h.event_handler in
      let inbound = published_as n "inbound" (message m) in
      let events = published_as n "event" (event e) in
      let outbound = published_as n "outbound" (message m) in
      ((publish_inbound m transport before ≡ ok (before ++ (inbound ∷ [])))
        × (receivers all inbound ≡ h.inbound_handler ∷ []))
      × (((publish_event e transport before ≡ ok (before ++ (events ∷ [])))
            × (receivers all events ≡ h.event_handler ∷ []))
          × ((publish_outbound m application before ≡ ok (before ++ (outbound ∷ [])))
              × (receivers all outbound ≡ k ∷ [])))
unfolding publish_inbound publish_event publish_outbound publish_message setup_receive_outbound
    setup_receive_inbound setup_publisher setup_consumer new insert lookup
receivers-publish apps ts n h k m e before ua ut ha ht = (
  (refl, receivers-system apps ts n h k ua ut ha ht "inbound" (message m) (inl refl)),
  (
    (refl, receivers-system apps ts n h k ua ut ha ht "event" (event e) (inr (inr refl))),
    (refl, receivers-system apps ts n h k ua ut ha ht "outbound" (message m) (inr (inl refl))),
  ),
)
