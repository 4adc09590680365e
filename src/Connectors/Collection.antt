-- ===== src/Connectors/Collection.antt =====
-- `ConnectorCollection` of src/vumi2/connectors.py: the order in which consumers and publishers
-- close. A consumer and a publisher is its queue or routing key. The tasks of one nursery may close
-- in any order, and a handler that is still at work may publish at any time; `published` records,
-- for each such publication, whether its publisher was open.
use vumi.Prelude.{String, Bool, true, List, [], ◌∷◌, ◌++◌, map, contains, string_eq, ◌≡◌}
use vumi.Connectors.Base.{BaseConnector, Subscription}

pub data Phase : Type 0 where
  running closing_consumers closing_publishers closed : Phase

pub record ConnectorCollection : Type 0 where
  pub connectors : List BaseConnector
  pub open_consumers : List String
  pub open_publishers : List String
  -- Which nursery of `aclose` is at work.
  pub phase : Phase
  pub published : List Bool

unfoldable pub new : ConnectorCollection
new = record {
  connectors = [];
  open_consumers = [];
  open_publishers = [];
  phase = running;
  published = [];
}

abbrev pub consumer_keys : BaseConnector → List String
consumer_keys c = map (λ (s : String × Subscription). s.1.queue_name) c.consumers

abbrev pub publisher_keys : BaseConnector → List String
publisher_keys c = map (λ (s : String × String). s.1) c.publishers

-- `add`, of a connector whose `setup` has run: what it has is open. A worker adds it before that.
unfoldable pub add : BaseConnector → ConnectorCollection → ConnectorCollection
add connector c = record c {
  connectors = c.connectors ++ (connector ∷ []);
  open_consumers = c.open_consumers ++ consumer_keys connector;
  open_publishers = c.open_publishers ++ publisher_keys connector;
}

-- All routing keys that the connectors publish on.
abbrev pub all_publishers : List BaseConnector → List String
all_publishers [] = []
all_publishers (c ∷ cs) = publisher_keys c ++ all_publishers cs

-- The steps of `aclose` and of the handlers that still run.
pub data Step : ConnectorCollection → ConnectorCollection → Type 0 where
  adds :
      {c : ConnectorCollection} (connector : BaseConnector)
      → c.phase ≡ running
      → Step c (add connector c)
  -- A handler of an open consumer publishes.
  publishes :
      {c : ConnectorCollection} (consumer key : String)
      → contains c.open_consumers consumer ≡ true
      → contains (all_publishers c.connectors) key ≡ true
      → Step c (record c { published = c.published ++ (contains c.open_publishers key ∷ []) })
  -- `aclose` opens its first nursery.
  closes :
      {c : ConnectorCollection}
      → c.phase ≡ running
      → Step c (record c { phase = closing_consumers })
  -- `aclose_consumers`: one consumer has closed.
  consumer_closes :
      {c : ConnectorCollection} (before : List String) (key : String) (after : List String)
      → c.phase ≡ closing_consumers
      → c.open_consumers ≡ before ++ (key ∷ after)
      → Step c (record c { open_consumers = before ++ after })
  -- The first nursery ends when all its tasks have, and the second opens.
  consumers_closed :
      {c : ConnectorCollection}
      → c.phase ≡ closing_consumers
      → c.open_consumers ≡ []
      → Step c (record c { phase = closing_publishers })
  -- `aclose_publishers`: one publisher has closed.
  publisher_closes :
      {c : ConnectorCollection} (before : List String) (key : String) (after : List String)
      → c.phase ≡ closing_publishers
      → c.open_publishers ≡ before ++ (key ∷ after)
      → Step c (record c { open_publishers = before ++ after })
  publishers_closed :
      {c : ConnectorCollection}
      → c.phase ≡ closing_publishers
      → c.open_publishers ≡ []
      → Step c (record c { phase = closed })

pub data Reachable : ConnectorCollection → Type 0 where
  fresh : Reachable new
  step : {c c' : ConnectorCollection} → Reachable c → Step c c' → Reachable c'
