-- ===== src/Cache/TimeoutDict/Expiry.antt =====
-- `_remove_expired` stops early, and still removes exactly the entries that have expired.
use vumi.Prelude.{ℕ, ◌≤◌, ◌≡◌, refl, false, not, [], ◌∷◌, arith, string_eq, filter}
use vumi.Prelude.Dict.{NodupKeys}
use vumi.Cache.TimeoutDict.{TimeoutDict, Items, is_expired, to_remove, pop_all, remove_expired}

module _ {ℓ} {V : Type ℓ} where
  -- Every timestamp is at least `t`.
  abbrev pub AtLeast : ℕ → Items V → Type 0
  AtLeast t [] = Unit
  AtLeast t ((k, (u, v)) ∷ d) = (t ≤ u) × AtLeast t d

  abbrev pub AtMost : ℕ → Items V → Type 0
  AtMost t [] = Unit
  AtMost t ((k, (u, v)) ∷ d) = (u ≤ t) × AtMost t d

  -- The entries stand in the order of their timestamps.
  abbrev pub IsOrdered : Items V → Type 0
  IsOrdered [] = Unit
  IsOrdered ((k, (u, v)) ∷ d) = AtLeast u d × IsOrdered d

  -- What every method keeps: the keys differ, and the timestamps ascend to at most `now`.
  pub record IsValid (now : ℕ) (d : TimeoutDict V) : Type ℓ where
    pub distinct : NodupKeys d.items
    pub ordered : IsOrdered d.items
    pub past : AtMost now d.items

  -- The specification: the entries that have not expired, wherever they stand.
  abbrev pub live : (now timeout : ℕ) → Items V → Items V
  live now timeout d = filter (λ e. not (is_expired now timeout e.1.0)) d

  filter_live :
      (now timeout t : ℕ) (d : Items V)
      → AtLeast t d
      → is_expired now timeout t ≡ false
      → live now timeout d ≡ d
  filter_live now timeout t [] h e = refl
  filter_live now timeout t ((k, (u, v)) ∷ d) h e =
      ground (arith, filter_live now timeout t d h.1 e)

  items-remove :
      (now timeout : ℕ) (d : Items V)
      → NodupKeys d
      → IsOrdered d
      → pop_all (to_remove now timeout d) d ≡ live now timeout d
  unfolding to_remove pop_all
  items-remove now timeout [] u o = refl
  items-remove now timeout ((k, (t, v)) ∷ d) u o = ground (
    arith,
    string_eq.beq_iff k k,
    items-remove now timeout d u.1 o.1,
    filter_live now timeout t d o.0,
  )

  -- On a valid dictionary the early stop changes nothing: what is left is exactly the entries that
  -- have not expired, in their order.
  pub remove_expired-eq-live :
      (now : ℕ) (d : TimeoutDict V)
      → IsValid now d
      → remove_expired now d ≡ record d { items = live now d.timeout d.items }
  unfolding remove_expired
  remove_expired-eq-live now d h = rw (items-remove now d.timeout d.items h.distinct h.ordered)
