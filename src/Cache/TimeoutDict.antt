-- ===== src/Cache/TimeoutDict.antt =====
-- `TimeoutDict` of src/vumi2/message_caches.py, with the methods that `MutableMapping` derives.
-- The readings of `current_time()` are arguments; a value is stored with the reading at its store.
pub mod Expiry
pub mod Laws
use vumi.Prelude.{
  ℕ, ◌-◌, String, Bool, Option, none, some, List, [], ◌∷◌, ltb, map, length, ◌==◌, string_eq,
  if◌then◌else◌,
}
use vumi.Prelude.Dict

-- The items of `self.data`, in insertion order.
abbrev pub Items {ℓ} : Type ℓ → Type ℓ
Items V = List (String × (ℕ × V))

pub record TimeoutDict {ℓ} (V : Type ℓ) : Type ℓ where
  pub items : Items V
  pub timeout : ℕ

-- `(now - timestamp) > self.timeout`
abbrev pub is_expired : (now timeout timestamp : ℕ) → Bool
is_expired now timeout timestamp = ltb timeout (now - timestamp)

module _ {ℓ} {V : Type ℓ} where
  -- `TimeoutDict(timeout)`
  unfoldable pub new : ℕ → TimeoutDict V
  new timeout = record { items = []; timeout = timeout }

  -- The first loop of `_remove_expired`: it stops at the first key that is new enough.
  unfoldable pub to_remove : (now timeout : ℕ) → Items V → List String
  to_remove now timeout [] = []
  to_remove now timeout ((k, (t, v)) ∷ d) =
      let rest = to_remove now timeout d in if is_expired now timeout t then k ∷ rest else []

  -- The second loop: `self.data.pop(key, None)` for each.
  unfoldable pub pop_all : List String → Items V → Items V
  unfolding Dict.erase
  pop_all [] d = d
  pop_all (k ∷ ks) d = pop_all ks (Dict.erase k d)

  unfoldable pub remove_expired : (now : ℕ) → TimeoutDict V → TimeoutDict V
  unfolding to_remove pop_all
  remove_expired now d = record d { items = pop_all (to_remove now d.timeout d.items) d.items }

  -- `d[key] = value`; the clock is read twice.
  unfoldable pub set_item : (now stamp : ℕ) → String → V → TimeoutDict V → TimeoutDict V
  unfolding remove_expired
  set_item now stamp key value d =
      let popped = record d { items = Dict.erase key d.items } in
      let kept = remove_expired now popped in
      record kept { items = Dict.insert key (stamp, value) kept.items }

  -- `self.data[key][1]`, or `None`
  abbrev pub value_of : Option (ℕ × V) → Option V
  value_of none = none
  value_of (some (t, v)) = some v

  -- `d[key]`, which is `None` for a key that is not there; `d.get(key)` is the same.
  unfoldable pub get_item : (now : ℕ) → String → TimeoutDict V → Option V × TimeoutDict V
  unfolding remove_expired
  get_item now key d =
      let kept = remove_expired now d in (value_of (Dict.lookup key kept.items), kept)

  -- `del d[key]`
  unfoldable pub del_item : (now : ℕ) → String → TimeoutDict V → TimeoutDict V
  unfolding remove_expired
  del_item now key d = remove_expired now (record d { items = Dict.erase key d.items })

  -- `d.pop(key)` and `d.pop(key, None)`: `self[key]`, then `del self[key]`. No key is ever an
  -- error, so the default is never used. Each reads the clock, here at the same time.
  unfoldable pub pop : (now : ℕ) → String → TimeoutDict V → Option V × TimeoutDict V
  unfolding get_item del_item
  pop now key d = let (value, d') = get_item now key d in (value, del_item now key d')

  -- `list(d.values())`: `__iter__`, then `self[key]` for each key, at one reading of the clock.
  unfoldable pub values : (now : ℕ) → TimeoutDict V → List V × TimeoutDict V
  unfolding remove_expired
  values now d = let kept = remove_expired now d in (map (λ e. e.1.1) kept.items, kept)

  -- `list(d)`, by `__iter__`.
  unfoldable pub keys : (now : ℕ) → TimeoutDict V → List String × TimeoutDict V
  unfolding remove_expired
  keys now d = let kept = remove_expired now d in (map (λ e. e.0) kept.items, kept)

  -- `len(d)`, by `__len__`.
  unfoldable pub len : (now : ℕ) → TimeoutDict V → ℕ × TimeoutDict V
  unfolding remove_expired
  len now d = let kept = remove_expired now d in (length kept.items, kept)
