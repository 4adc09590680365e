-- ===== src/Smpp/Cache/Multipart.antt =====
-- Reassembly of a multipart message by `store_multipart`
-- (src/vumi2/transports/smpp/smpp_cache.py).
use mathlib.Core.List.{Permᴰ, append_assoc}
use mathlib.Core.Path.{ap₂}
use vumi.Prelude.{
  ℕ, zero, suc, ◌+◌, ◌≡◌, ◌≢◌, ap, sym, ◌∙◌, String, true, Option, none, some, List, [], ◌∷◌, ◌++◌,
  length, length-append, arith, ◌==◌, nat_eq, pair_eq, if◌then◌else◌,
}
use vumi.Prelude.Dict
use vumi.Prelude.Dict.{
  NodupKeys, Absent, insert_of_Absent, insert-NodupKeys, lookup-insert, lookup-erase,
}
use vumi.Smpp.Cache.{SmppCache, Key, Parts, parts_at, store_multipart, sort_parts, join}
use vumi.Smpp.Cache.Sort.{
  number_from, concat, join-sort_parts, NodupKeys-arrangement, length-arrangement,
}

-- The parts arrive one after the other: the results, in order, and the cache.
unfoldable pub store_all :
    (ref_num tot_num : ℕ) → Parts → SmppCache → List (Option String) × SmppCache
unfolding store_multipart
store_all ref_num tot_num [] c = ([], c)
store_all ref_num tot_num ((i, x) ∷ parts) c =
    let (result, c') = store_multipart ref_num tot_num i x c in
    let (results, c'') = store_all ref_num tot_num parts c' in (result ∷ results, c'')

-- `n` results that say that parts are missing, then `last`.
abbrev pub waits_then : ℕ → Option String → List (Option String)
waits_then zero last = last ∷ []
waits_then (suc n) last = none ∷ waits_then n last

ne-middle : (k i : ℕ) (x : String) (d rest : Parts) → Absent k (d ++ (i, x) ∷ rest) → i ≢ k
ne-middle k i x [] rest h = h.0
ne-middle k i x (p ∷ d) rest h = ne-middle k i x d rest h.1

Absent-middle : (i : ℕ) (x : String) (d rest : Parts) → NodupKeys (d ++ (i, x) ∷ rest) → Absent i d
Absent-middle i x [] rest h = tt
Absent-middle i x ((k, y) ∷ d) rest h =
    (λ e. ne-middle k i x d rest h.0 (sym e), Absent-middle i x d rest h.1)

module _ (ref_num tot_num : ℕ) where
  abbrev key : Key
  key = (ref_num, tot_num)

  -- What is stored under the key.
  abbrev stored : SmppCache → Parts
  stored c = parts_at (Dict.lookup key c.multipart)

  -- A part that is new, with others still to come.
  store_waits :
      (i : ℕ) (x : String) (c : SmppCache)
      → Absent i (stored c)
      → suc (length (stored c)) ≢ tot_num
      → store_multipart ref_num tot_num i x c
        ≡ (none, record c { multipart = Dict.insert key (stored c ++ (i, x) ∷ []) c.multipart })
  unfolding store_multipart
  store_waits i x c new n =
      rw (insert_of_Absent i x (stored c) new)
        (ground (arith, length-append (stored c) ((i, x) ∷ [])))

  -- The last part.
  store_completes :
      (i : ℕ) (x : String) (c : SmppCache)
      → Absent i (stored c)
      → suc (length (stored c)) ≡ tot_num
      → store_multipart ref_num tot_num i x c ≡ (
        some (join (sort_parts (stored c ++ (i, x) ∷ []))),
        record c {
          multipart = Dict.erase key (Dict.insert key (stored c ++ (i, x) ∷ []) c.multipart);
        },
      )
  unfolding store_multipart
  store_completes i x c new n =
      rw (insert_of_Absent i x (stored c) new)
        (ground (arith, length-append (stored c) ((i, x) ∷ [])))

  -- What a run of all the missing parts does, from any number of parts that are there already.
  record Completes (first : ℕ × String) (rest : Parts) (c : SmppCache) : Type 0 where
    results :
        (store_all ref_num tot_num (first ∷ rest) c).0
        ≡ waits_then (length rest) (some (join (sort_parts (stored c ++ first ∷ rest))))
    multipart :
        (j : Key)
        → Dict.lookup j (store_all ref_num tot_num (first ∷ rest) c).1.multipart
          ≡ (if key == j then none else Dict.lookup j c.multipart)
    ids : (store_all ref_num tot_num (first ∷ rest) c).1.smpp_msg_id ≡ c.smpp_msg_id

  key_refl : (key == key) ≡ true
  key_refl = ground arith

  -- The cache after a part that is not the last.
  abbrev waiting : ℕ × String → SmppCache → SmppCache
  waiting p c = record c { multipart = Dict.insert key (stored c ++ p ∷ []) c.multipart }

  stored-waiting : (p : ℕ × String) (c : SmppCache) → stored (waiting p c) ≡ stored c ++ p ∷ []
  stored-waiting p c =
      ground (arith, lookup-insert key key (stored c ++ p ∷ []) c.multipart, key_refl)

  stored_append :
      (p : ℕ × String) (rest : Parts) (c : SmppCache)
      → stored (waiting p c) ++ rest ≡ stored c ++ p ∷ rest
  stored_append p rest c =
      ap (λ (l : Parts). l ++ rest) (stored-waiting p c) ∙ append_assoc (stored c) (p ∷ []) rest

  store_all-Completes :
      (i : ℕ) (x : String) (rest : Parts) (c : SmppCache)
      → NodupKeys (stored c ++ (i, x) ∷ rest)
      → NodupKeys c.multipart
      → length (stored c) + suc (length rest) ≡ tot_num
      → Completes (i, x) rest c
  unfolding store_all
  store_all-Completes i x [] c u m n =
      let step = store_completes i x c (Absent-middle i x _ [] u) (omega arith) in
      record {
        results = ap (λ (r : Option String × SmppCache). r.0 ∷ []) step;
        multipart = λ j.
            ap (λ (r : Option String × SmppCache). Dict.lookup j r.1.multipart) step
            ∙ lookup-erase key j _ (insert-NodupKeys key _ c.multipart m)
            ∙ ground (arith, lookup-insert key j (stored c ++ (i, x) ∷ []) c.multipart);
        ids = ap (λ (r : Option String × SmppCache). r.1.smpp_msg_id) step;
      }
  store_all-Completes i x ((i', x') ∷ rest) c u m n =
      let c' = waiting (i, x) c in
      let parts = stored_append (i, x) ((i', x') ∷ rest) c in
      let step = store_waits i x c (Absent-middle i x _ _ u) (omega arith) in
      let later =
        store_all-Completes i' x' rest c' (rw parts u) (insert-NodupKeys key _ c.multipart m) (
          omega
            (arith, ap length (stored-waiting (i, x) c), length-append (stored c) ((i, x) ∷ []))) in
      record {
        results =
            ap
              (λ (r : Option String × SmppCache).
                r.0 ∷ (store_all ref_num tot_num ((i', x') ∷ rest) r.1).0)
              step
            ∙ ap (◌∷◌ none) (
                later.results
                ∙ ap (λ (l : Parts). waits_then (length rest) (some (join (sort_parts l)))) parts);
        multipart = λ j.
            ap
              (λ (r : Option String × SmppCache).
                Dict.lookup j (store_all ref_num tot_num ((i', x') ∷ rest) r.1).1.multipart)
              step
            ∙ later.multipart j
            ∙ ground (arith, lookup-insert key j (stored c ++ (i, x) ∷ []) c.multipart);
        ids =
            ap
              (λ (r : Option String × SmppCache).
                (store_all ref_num tot_num ((i', x') ∷ rest) r.1).1.smpp_msg_id)
              step
            ∙ later.ids;
      }

-- The segments of a message, numbered from 1, are stored in any order under a key that the cache
-- does not hold. Every part but the last to come returns `None`, the last returns the segments
-- joined in the order of their numbers, and the cache is then as before, so that the key can be
-- used again.
pub store_all-arrangement :
    (ref_num : ℕ) (segment : String) (segments : List String) (parts : Parts) (c : SmppCache)
    → Permᴰ (number_from 1 (segment ∷ segments)) parts
    → NodupKeys c.multipart
    → Dict.lookup (ref_num, length (segment ∷ segments)) c.multipart ≡ none
    → ((store_all ref_num (length (segment ∷ segments)) parts c).0
        ≡ waits_then (length segments) (some (concat (segment ∷ segments))))
      × ((j : Key)
          → Dict.lookup j (store_all ref_num (length (segment ∷ segments)) parts c).1.multipart
            ≡ Dict.lookup j c.multipart)
      × ((store_all ref_num (length (segment ∷ segments)) parts c).1.smpp_msg_id ≡ c.smpp_msg_id)
store_all-arrangement ref_num segment segments [] c p m fresh =
    absurd (omega (arith, length-arrangement (segment ∷ segments) p))
store_all-arrangement ref_num segment segments ((i, x) ∷ parts) c p m fresh = (
  run.results
      ∙ ap₂ (λ n (l : Parts). waits_then n (some (join (sort_parts l)))) same_length
          (ap (λ (l : Parts). l ++ (i, x) ∷ parts) empty)
      ∙ ap (λ s. waits_then (length segments) (some s)) (join-sort_parts (segment ∷ segments) p),
  λ j. run.multipart j ∙ ground (arith, (pair_eq {A = ℕ} {B = ℕ}).beq_iff (key ref_num total) j),
  run.ids,
)
  where
    total : ℕ
    total = length (segment ∷ segments)

    same_length : length parts ≡ length segments
    same_length = omega (arith, length-arrangement (segment ∷ segments) p)

    empty : stored ref_num total c ≡ []
    empty = ap parts_at fresh

    run : Completes ref_num total (i, x) parts c
    run =
        store_all-Completes ref_num total i x parts c
          (rw empty (NodupKeys-arrangement (segment ∷ segments) p)) m
          (omega (arith, ap length empty, same_length))
