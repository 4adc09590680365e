-- ===== src/Connectors/Ordering.antt =====
-- What the two nurseries of `ConnectorCollection.aclose` (src/vumi2/connectors.py) ensure.
use mathlib.Core.List.{append-nil, append_assoc}
use vumi.Prelude.{
  String, Bool, true, false, List, [], ◌∷◌, ◌++◌, contains, string_eq, ◌≡◌, ◌≢◌, refl, sym, ap, ◌∙◌,
  All, arith, Bool-cases, ◌⊎◌, inl, inr,
}
use vumi.Connectors.Base.{BaseConnector}
use vumi.Connectors.Collection.{
  Phase, running, closing_consumers, closing_publishers, closed, ConnectorCollection, new, add,
  publisher_keys, all_publishers, Step, adds, publishes, closes, consumer_closes, consumers_closed,
  publisher_closes, publishers_closed, Reachable, fresh, step,
}

-- The phases before the second nursery.
abbrev pub early : Phase → Bool
early running = true
early closing_consumers = true
early closing_publishers = false
early closed = false

record IsValid (c : ConnectorCollection) : Type 0 where
  publishers_open : early c.phase ≡ true → c.open_publishers ≡ all_publishers c.connectors
  consumers_done : early c.phase ≡ false → c.open_consumers ≡ []
  publishers_done : c.phase ≡ closed → c.open_publishers ≡ []
  found_open : All (λ b. b ≡ true) c.published

all_publishers-append :
    (cs : List BaseConnector) (c : BaseConnector)
    → all_publishers (cs ++ (c ∷ [])) ≡ all_publishers cs ++ publisher_keys c
all_publishers-append [] c = append-nil (publisher_keys c)
all_publishers-append (d ∷ cs) c =
    ap (◌++◌ (publisher_keys d)) (all_publishers-append cs c)
    ∙ sym (append_assoc (publisher_keys d) (all_publishers cs) (publisher_keys c))

All-append :
    (bs : List Bool) (b : Bool)
    → All (λ b. b ≡ true) bs
    → b ≡ true
    → All (λ b. b ≡ true) (bs ++ (b ∷ []))
All-append [] b h p = (p, tt)
All-append (x ∷ bs) b h p = (h.0, All-append bs b h.1 p)

new-IsValid : IsValid new
unfolding new
new-IsValid = record {
  publishers_open = λ p. refl;
  consumers_done = λ p. refl;
  publishers_done = λ p. refl;
  found_open = tt;
}

add-IsValid :
    (x : BaseConnector) (c : ConnectorCollection)
    → c.phase ≡ running
    → IsValid c
    → IsValid (add x c)
unfolding add
add-IsValid x c r h = record {
  publishers_open = λ p.
      ap (λ ks. ks ++ publisher_keys x) (h.publishers_open p)
      ∙ sym (all_publishers-append c.connectors x);
  consumers_done = λ p. ground (arith, ap early r);
  publishers_done = λ p. ground (arith, r);
  found_open = h.found_open;
}

publishes-IsValid :
    (c : ConnectorCollection) (consumer key : String)
    → contains c.open_consumers consumer ≡ true
    → contains (all_publishers c.connectors) key ≡ true
    → IsValid c
    → IsValid (record c { published = c.published ++ (contains c.open_publishers key ∷ []) })
publishes-IsValid c consumer key p q h = record {
  publishers_open = h.publishers_open;
  consumers_done = h.consumers_done;
  publishers_done = h.publishers_done;
  found_open =
      All-append c.published (contains c.open_publishers key) h.found_open
        (elim (Bool-cases (early c.phase)) [
          | inl e ↦ ap (λ ks. contains ks key) (h.publishers_open e) ∙ q
          | inr e ↦ absurd (nobody (sym (ap (λ ks. contains ks consumer) (h.consumers_done e)) ∙ p))
        ]);
}
  where
    nobody : false ≢ true
    nobody p = ground arith

Step-IsValid : {c c' : ConnectorCollection} → Step c c' → IsValid c → IsValid c'
Step-IsValid {c} (adds x r) h = add-IsValid x c r h
Step-IsValid {c} (publishes consumer key p q) h = publishes-IsValid c consumer key p q h
Step-IsValid {c} (closes r) h = record {
  publishers_open = λ p. h.publishers_open (ap early r);
  consumers_done = λ p. ground arith;
  publishers_done = λ p. ground arith;
  found_open = h.found_open;
}
Step-IsValid {c} (consumer_closes before key after r e) h = record {
  publishers_open = h.publishers_open;
  consumers_done = λ p. ground (arith, ap early r);
  publishers_done = h.publishers_done;
  found_open = h.found_open;
}
Step-IsValid {c} (consumers_closed r e) h = record {
  publishers_open = λ p. ground arith;
  consumers_done = λ p. e;
  publishers_done = λ p. ground arith;
  found_open = h.found_open;
}
Step-IsValid {c} (publisher_closes before key after r e) h = record {
  publishers_open = λ p. ground (arith, ap early r);
  consumers_done = h.consumers_done;
  publishers_done = λ p. ground (arith, r);
  found_open = h.found_open;
}
Step-IsValid {c} (publishers_closed r e) h = record {
  publishers_open = λ p. ground arith;
  consumers_done = λ p. h.consumers_done (ap early r);
  publishers_done = λ p. e;
  found_open = h.found_open;
}

Reachable-IsValid : {c : ConnectorCollection} → Reachable c → IsValid c
Reachable-IsValid fresh = new-IsValid
Reachable-IsValid (step r s) = Step-IsValid s (Reachable-IsValid r)

-- In every order of the steps, a handler of a consumer that is open, also while `aclose` is at
-- work, publishes on an open publisher, whichever connector that is of; and when `aclose` has
-- returned, all consumers and publishers are closed.
pub handlers_publish :
    (c : ConnectorCollection)
    → Reachable c
    → All (λ b. b ≡ true) c.published
      × (c.phase ≡ closed → (c.open_consumers ≡ []) × (c.open_publishers ≡ []))
handlers_publish c r =
    let h = Reachable-IsValid r in
    (h.found_open, λ p. (h.consumers_done (ap early p), h.publishers_done p))

pub data Run : ConnectorCollection → ConnectorCollection → Type 0 where
  stop : {c : ConnectorCollection} → Run c c
  next : {c c' c'' : ConnectorCollection} → Step c c' → Run c' c'' → Run c c''

abbrev pub Closable : ConnectorCollection → Type 0
Closable c = (c' : ConnectorCollection) × (Run c c' × (c'.phase ≡ closed))

after : {c c' : ConnectorCollection} → Step c c' → Closable c' → Closable c
after s (c'', (run, p)) = (c'', (next s run, p))

publishers_close :
    (ks : List String) (c : ConnectorCollection)
    → c.phase ≡ closing_publishers
    → c.open_publishers ≡ ks
    → Closable c
publishers_close [] c r e = (record c { phase = closed }, (next (publishers_closed r e) stop, refl))
publishers_close (k ∷ ks) c r e =
    after (publisher_closes [] k ks r e)
      (publishers_close ks (record c { open_publishers = ks }) r refl)

consumers_close :
    (ks : List String) (c : ConnectorCollection)
    → c.phase ≡ closing_consumers
    → c.open_consumers ≡ ks
    → Closable c
consumers_close [] c r e =
    after (consumers_closed r e)
      (publishers_close c.open_publishers (record c { phase = closing_publishers }) refl refl)
consumers_close (k ∷ ks) c r e =
    after (consumer_closes [] k ks r e)
      (consumers_close ks (record c { open_consumers = ks }) r refl)

-- From every state there are steps to the one in which `aclose` has returned: no order of the
-- steps leads to a state in which the closing is stuck.
pub closes_from_anywhere : (c : ConnectorCollection) → Closable c
closes_from_anywhere c = elim (phase_cases c.phase) [
  | inl r ↦
      after (closes r)
        (consumers_close c.open_consumers (record c { phase = closing_consumers }) refl refl)
  | inr s ↦ elim s [
    | inl r ↦ consumers_close c.open_consumers c r refl
    | inr s ↦ elim s [
      | inl r ↦ publishers_close c.open_publishers c r refl
      | inr r ↦ (c, (stop, r))
    ]
  ]
]
  where
    phase_cases :
        (p : Phase)
        → (p ≡ running) ⊎ ((p ≡ closing_consumers) ⊎ ((p ≡ closing_publishers) ⊎ (p ≡ closed)))
    phase_cases running = inl refl
    phase_cases closing_consumers = inr (inl refl)
    phase_cases closing_publishers = inr (inr (inl refl))
    phase_cases closed = inr (inr (inr refl))
