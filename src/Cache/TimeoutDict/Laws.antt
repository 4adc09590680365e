-- ===== src/Cache/TimeoutDict/Laws.antt =====
-- `TimeoutDict` as a map whose entries expire: what can be read after each method, and the
-- invariant that the methods keep (src/vumi2/message_caches.py).
use vumi.Prelude.{
  ℕ, ◌≤◌, ◌≡◌, refl, String, Option, none, some, [], ◌∷◌, ◌++◌, arith, ap, ◌∙◌, ◌==◌, string_eq,
  if◌then◌else◌,
}
use vumi.Prelude.Dict
use vumi.Prelude.Dict.{
  NodupKeys, Absent, Absent-erase, Absent-erase_self, erase-NodupKeys, lookup-insert, lookup-erase,
  insert_of_Absent, insert-NodupKeys,
}
use vumi.Cache.TimeoutDict.{
  TimeoutDict, Items, is_expired, new, remove_expired, set_item, get_item, del_item, pop, values,
  value_of,
}
use vumi.Cache.TimeoutDict.Expiry.{
  IsValid, AtLeast, AtMost, IsOrdered, live, remove_expired-eq-live,
}

module _ {V : Type 0} where
  -- What a reader may see of a key at the time `now`.
  unfoldable pub view : (now : ℕ) → String → TimeoutDict V → Option V
  view now k d = elim (Dict.lookup k d.items) [
    | none ↦ none
    | some (t, v) ↦ if is_expired now d.timeout t then none else some v
  ]

  AtLeast-live : (n m t : ℕ) (d : Items V) → AtLeast t d → AtLeast t (live n m d)
  AtLeast-live n m t [] h = tt
  AtLeast-live n m t ((k, (u, v)) ∷ d) h = ground (arith, AtLeast-live n m t d h.1)

  AtMost-live : (n m t : ℕ) (d : Items V) → AtMost t d → AtMost t (live n m d)
  AtMost-live n m t [] h = tt
  AtMost-live n m t ((k, (u, v)) ∷ d) h = ground (arith, AtMost-live n m t d h.1)

  IsOrdered-live : (n m : ℕ) (d : Items V) → IsOrdered d → IsOrdered (live n m d)
  IsOrdered-live n m [] h = tt
  IsOrdered-live n m ((k, (u, v)) ∷ d) h =
      ground (arith, AtLeast-live n m u d h.0, IsOrdered-live n m d h.1)

  Absent-live : (n m : ℕ) (k : String) (d : Items V) → Absent k d → Absent k (live n m d)
  Absent-live n m k [] h = tt
  Absent-live n m k ((j, (u, v)) ∷ d) h = ground (arith, Absent-live n m k d h.1)

  NodupKeys-live : (n m : ℕ) (d : Items V) → NodupKeys d → NodupKeys (live n m d)
  NodupKeys-live n m [] h = tt
  NodupKeys-live n m ((j, (u, v)) ∷ d) h =
      ground (arith, Absent-live n m j d h.0, NodupKeys-live n m d h.1)

  AtLeast-erase : (k : String) (t : ℕ) (d : Items V) → AtLeast t d → AtLeast t (Dict.erase k d)
  unfolding Dict.erase
  AtLeast-erase k t [] h = tt
  AtLeast-erase k t ((j, (u, v)) ∷ d) h = ground (arith, AtLeast-erase k t d h.1)

  AtMost-erase : (k : String) (t : ℕ) (d : Items V) → AtMost t d → AtMost t (Dict.erase k d)
  unfolding Dict.erase
  AtMost-erase k t [] h = tt
  AtMost-erase k t ((j, (u, v)) ∷ d) h = ground (arith, AtMost-erase k t d h.1)

  IsOrdered-erase : (k : String) (d : Items V) → IsOrdered d → IsOrdered (Dict.erase k d)
  unfolding Dict.erase
  IsOrdered-erase k [] h = tt
  IsOrdered-erase k ((j, (u, v)) ∷ d) h =
      ground (arith, AtLeast-erase k u d h.0, IsOrdered-erase k d h.1)

  AtLeast-append :
      (t : ℕ) (k : String) (u : ℕ) (v : V) (d : Items V)
      → AtLeast t d
      → t ≤ u
      → AtLeast t (d ++ (k, (u, v)) ∷ [])
  AtLeast-append t k u v [] h b = (b, tt)
  AtLeast-append t k u v ((j, (w, x)) ∷ d) h b = (h.0, AtLeast-append t k u v d h.1 b)

  AtMost-append :
      (t : ℕ) (k : String) (u : ℕ) (v : V) (d : Items V)
      → AtMost t d
      → t ≤ u
      → AtMost u (d ++ (k, (u, v)) ∷ [])
  AtMost-append t k u v [] h b = (omega arith, tt)
  AtMost-append t k u v ((j, (w, x)) ∷ d) h b = (omega arith, AtMost-append t k u v d h.1 b)

  IsOrdered-append :
      (t : ℕ) (k : String) (u : ℕ) (v : V) (d : Items V)
      → IsOrdered d
      → AtMost t d
      → t ≤ u
      → IsOrdered (d ++ (k, (u, v)) ∷ [])
  IsOrdered-append t k u v [] o h b = (tt, tt)
  IsOrdered-append t k u v ((j, (w, x)) ∷ d) o h b =
      (AtLeast-append w k u v d o.0 (omega arith), IsOrdered-append t k u v d o.1 h.1 b)

  AtMost-mono : (t u : ℕ) (d : Items V) → t ≤ u → AtMost t d → AtMost u d
  AtMost-mono t u [] b h = tt
  AtMost-mono t u ((j, (w, x)) ∷ d) b h = (omega arith, AtMost-mono t u d b h.1)

  -- Time passes.
  pub IsValid-later :
      {now later : ℕ} {d : TimeoutDict V} → now ≤ later → IsValid now d → IsValid later d
  IsValid-later {now} {later} {d} b h = record {
    distinct = h.distinct;
    ordered = h.ordered;
    past = AtMost-mono now later d.items b h.past;
  }

  pub new-IsValid : (now timeout : ℕ) → IsValid now (new {V = V} timeout)
  unfolding new
  new-IsValid now timeout = record { distinct = tt; ordered = tt; past = tt }

  pub remove_expired-IsValid :
      (now : ℕ) (d : TimeoutDict V) → IsValid now d → IsValid now (remove_expired now d)
  remove_expired-IsValid now d h = rw (remove_expired-eq-live now d h) (record {
    distinct = NodupKeys-live now d.timeout d.items h.distinct;
    ordered = IsOrdered-live now d.timeout d.items h.ordered;
    past = AtMost-live now d.timeout now d.items h.past;
  })

  pub erase-IsValid :
      (now : ℕ) (k : String) (d : TimeoutDict V)
      → IsValid now d
      → IsValid now (record d { items = Dict.erase k d.items })
  erase-IsValid now k d h = record {
    distinct = erase-NodupKeys k d.items h.distinct;
    ordered = IsOrdered-erase k d.items h.ordered;
    past = AtMost-erase k now d.items h.past;
  }

  module _ (now stamp : ℕ) (k : String) (v : V) (d : TimeoutDict V) (h : IsValid now d) where
    -- The entries that a store of `k` keeps.
    abbrev kept : Items V
    kept = live now d.timeout (Dict.erase k d.items)

    erased : IsValid now (record d { items = Dict.erase k d.items })
    erased = erase-IsValid now k d h

    kept-Absent : Absent k kept
    kept-Absent = Absent-live now d.timeout k _ (Absent-erase_self k d.items h.distinct)

    set_item_lem : set_item now stamp k v d ≡ record d { items = kept ++ (k, (stamp, v)) ∷ [] }
    unfolding set_item
    set_item_lem =
        ap (λ (x : TimeoutDict V). record x { items = Dict.insert k (stamp, v) x.items })
          (remove_expired-eq-live now _ erased)
        ∙ ap (λ (l : Items V). record d { items = l })
            (insert_of_Absent k (stamp, v) kept kept-Absent)

    set_item-IsValid : now ≤ stamp → IsValid stamp (set_item now stamp k v d)
    set_item-IsValid b = rw set_item_lem (record {
      distinct =
          rw (← insert_of_Absent k (stamp, v) kept kept-Absent)
            (insert-NodupKeys k (stamp, v) kept (NodupKeys-live now d.timeout _ erased.distinct));
      ordered =
          IsOrdered-append now k stamp v kept (IsOrdered-live now d.timeout _ erased.ordered)
            (AtMost-live now d.timeout now _ erased.past) b;
      past = AtMost-append now k stamp v kept (AtMost-live now d.timeout now _ erased.past) b;
    })

  -- Storing, reading, deleting and iterating keep a valid dictionary valid, whatever the key, as
  -- the clock goes on.
  pub methods-IsValid :
      (now stamp : ℕ) (k : String) (v : V) (d : TimeoutDict V)
      → now ≤ stamp
      → IsValid now d
      → IsValid stamp (set_item now stamp k v d)
        × IsValid now (get_item now k d).1
        × IsValid now (del_item now k d)
        × IsValid now (pop now k d).1
        × IsValid now (values now d).1
  unfolding get_item del_item pop values
  methods-IsValid now stamp k v d b h = (
    set_item-IsValid now stamp k v d h b,
    remove_expired-IsValid now d h,
    remove_expired-IsValid now _ (erase-IsValid now k d h),
    remove_expired-IsValid now _ (erase-IsValid now k _ (remove_expired-IsValid now d h)),
    remove_expired-IsValid now d h,
  )

  lookup-live :
      (now timeout : ℕ) (j : String) (d : Items V)
      → NodupKeys d
      → Dict.lookup j (live now timeout d) ≡ elim (Dict.lookup j d) [
        | none ↦ none
        | some (t, v) ↦ if is_expired now timeout t then none else some (t, v)
      ]
  unfolding Dict.lookup
  lookup-live now timeout j [] u = refl
  lookup-live now timeout j ((k, (t, v)) ∷ d) u =
      ground (
        arith,
        string_eq.beq_iff k j,
        lookup-live now timeout j d u.1,
        Dict.lookup_of_Absent k d u.0,
      )

  -- What has expired stays so, and removing it is not seen.
  view-live :
      (now later : ℕ) (j : String) (d : TimeoutDict V)
      → now ≤ later
      → NodupKeys d.items
      → view later j (record d { items = live now d.timeout d.items }) ≡ view later j d
  unfolding view
  view-live now later j d b u = ground (arith, lookup-live now d.timeout j d.items u)

  view-remove_expired :
      (now later : ℕ) (j : String) (d : TimeoutDict V)
      → now ≤ later
      → IsValid now d
      → view later j (remove_expired now d) ≡ view later j d
  view-remove_expired now later j d b h =
      rw (remove_expired-eq-live now d h) (view-live now later j d b h.distinct)

  view-erase :
      (later : ℕ) (k j : String) (d : TimeoutDict V)
      → NodupKeys d.items
      → view later j (record d { items = Dict.erase k d.items })
        ≡ (if k == j then none else view later j d)
  unfolding view
  view-erase later k j d u = ground (arith, lookup-erase k j d.items u)

  -- A read returns what the specification shows, also for a key that was never stored.
  pub get_item-eq-view :
      (now : ℕ) (k : String) (d : TimeoutDict V)
      → IsValid now d
      → (get_item now k d).0 ≡ view now k d
  unfolding get_item view
  get_item-eq-view now k d h =
      ap (λ (x : TimeoutDict V). value_of (Dict.lookup k x.items)) (remove_expired-eq-live now d h)
      ∙ ground (arith, lookup-live now d.timeout k d.items h.distinct)

  -- In a valid dictionary, a store of `k` shows at `k` until the timeout has passed since its
  -- stamp, and changes the view of no other key.
  pub view-set_item :
      (now stamp later : ℕ) (k j : String) (v : V) (d : TimeoutDict V)
      → now ≤ stamp
      → stamp ≤ later
      → IsValid now d
      → view later j (set_item now stamp k v d) ≡ (
          if k == j
          then (if is_expired later d.timeout stamp then none else some v)
          else view later j d)
  unfolding view
  view-set_item now stamp later k j v d b c h =
      rw
        (
          set_item_lem now stamp k v d h,
          ← insert_of_Absent k (stamp, v) (kept now stamp k v d h) (kept-Absent now stamp k v d h),
        )
        (ground (
          arith,
          lookup-insert k j (stamp, v) (kept now stamp k v d h),
          lookup-live now d.timeout j (Dict.erase k d.items) (erase-NodupKeys k d.items h.distinct),
          lookup-erase k j d.items h.distinct,
        ))

  -- In a valid dictionary, a deletion hides its key and no other; a `pop` returns the view of its
  -- key and then deletes it.
  pub view-pop :
      (now later : ℕ) (k j : String) (d : TimeoutDict V)
      → now ≤ later
      → IsValid now d
      → ((pop now k d).0 ≡ view now k d)
        × (view later j (pop now k d).1 ≡ (if k == j then none else view later j d))
        × (view later j (del_item now k d) ≡ (if k == j then none else view later j d))
  unfolding pop del_item get_item
  view-pop now later k j d b h = (
    get_item-eq-view now k d h,
    view-remove_expired now later j _ b (erase-IsValid now k _ after)
        ∙ view-erase later k j _ after.distinct
        ∙ ap (λ (x : Option V). if k == j then none else x) (view-remove_expired now later j d b h),
    view-remove_expired now later j _ b (erase-IsValid now k d h)
        ∙ view-erase later k j d h.distinct,
  )
    where
      after : IsValid now (remove_expired now d)
      after = remove_expired-IsValid now d h
