-- ===== src/Prelude/Dict.antt =====
-- Python's `dict`: its items in insertion order. A write to a key that is there keeps its place.
use mathlib.Core.Bool.{Bool, true, false}
use mathlib.Core.List.{List, [], ◌∷◌, ◌++◌}
use mathlib.Core.Logic.{◌≢◌}
use mathlib.Core.Option.{Option, none, some}
use mathlib.Core.Path.{◌≡◌, refl}
use native.Mathlib.Omega.{arith}
use vumi.Prelude.Tests.{if◌then◌else◌}
use vumi.Prelude.Equality.{Eq, ◌==◌}

module _ {ℓ κ} {K : Type ℓ} {V : Type κ} ⦃e : Eq K⦄ where
  -- `d.get(k)`
  unfoldable pub lookup : K → List (K × V) → Option V
  lookup k [] = none
  lookup k ((j, v) ∷ d) = if j == k then some v else lookup k d

  -- `d[k] = v`
  unfoldable pub insert : K → V → List (K × V) → List (K × V)
  insert k v [] = (k, v) ∷ []
  insert k v ((j, w) ∷ d) = if j == k then (j, v) ∷ d else (j, w) ∷ insert k v d

  -- `d.pop(k, None)`, `del d[k]`
  unfoldable pub erase : K → List (K × V) → List (K × V)
  erase k [] = []
  erase k ((j, v) ∷ d) = if j == k then d else (j, v) ∷ erase k d

  -- `k in d`
  unfoldable pub has : K → List (K × V) → Bool
  unfolding lookup
  has k d = elim (lookup k d) [ none ↦ false | some _ ↦ true ]

  -- No key twice, as in every dict.
  abbrev pub Absent : K → List (K × V) → Type ℓ
  Absent k [] = Unit
  Absent k ((j, v) ∷ d) = (j ≢ k) × Absent k d

  abbrev pub NodupKeys : List (K × V) → Type ℓ
  NodupKeys [] = Unit
  NodupKeys ((j, v) ∷ d) = Absent j d × NodupKeys d

  pub lookup-insert :
      (k j : K) (v : V) (d : List (K × V))
      → lookup j (insert k v d) ≡ (if k == j then some v else lookup j d)
  unfolding lookup insert
  lookup-insert k j v [] = refl
  lookup-insert k j v ((i, w) ∷ d) =
      ground (arith, e.beq_iff k j, e.beq_iff i k, e.beq_iff i j, lookup-insert k j v d)

  pub lookup_of_Absent : (k : K) (d : List (K × V)) → Absent k d → lookup k d ≡ none
  unfolding lookup
  lookup_of_Absent k [] h = refl
  lookup_of_Absent k ((i, w) ∷ d) h = ground (arith, e.beq_iff i k, lookup_of_Absent k d h.1)

  pub Absent-lookup : (k : K) (d : List (K × V)) → lookup k d ≡ none → Absent k d
  unfolding lookup
  Absent-lookup k [] h = tt
  Absent-lookup k ((i, w) ∷ d) h =
      (λ p. ground (arith, e.beq_iff i k), Absent-lookup k d (ground (arith, e.beq_iff i k)))

  pub lookup-erase :
      (k j : K) (d : List (K × V))
      → NodupKeys d
      → lookup j (erase k d) ≡ (if k == j then none else lookup j d)
  unfolding lookup erase
  lookup-erase k j [] u = ground arith
  lookup-erase k j ((i, w) ∷ d) u = ground (
    arith,
    e.beq_iff k j,
    e.beq_iff i k,
    e.beq_iff i j,
    lookup-erase k j d u.1,
    lookup_of_Absent i d u.0,
  )

  pub Absent-erase : (k j : K) (d : List (K × V)) → Absent j d → Absent j (erase k d)
  unfolding erase
  Absent-erase k j [] h = tt
  Absent-erase k j ((i, w) ∷ d) h = ground (arith, Absent-erase k j d h.1)

  pub Absent-erase_self : (k : K) (d : List (K × V)) → NodupKeys d → Absent k (erase k d)
  unfolding erase
  Absent-erase_self k [] h = tt
  Absent-erase_self k ((i, w) ∷ d) h = ground (arith, e.beq_iff i k, Absent-erase_self k d h.1)

  pub erase-NodupKeys : (k : K) (d : List (K × V)) → NodupKeys d → NodupKeys (erase k d)
  unfolding erase
  erase-NodupKeys k [] h = tt
  erase-NodupKeys k ((i, w) ∷ d) h = ground (arith, Absent-erase k i d h.0, erase-NodupKeys k d h.1)

  pub Absent-insert :
      (k j : K) (v : V) (d : List (K × V)) → k ≢ j → Absent j d → Absent j (insert k v d)
  unfolding insert
  Absent-insert k j v [] n h = (n, tt)
  Absent-insert k j v ((i, w) ∷ d) n h = ground (arith, Absent-insert k j v d n h.1)

  pub insert-NodupKeys : (k : K) (v : V) (d : List (K × V)) → NodupKeys d → NodupKeys (insert k v d)
  unfolding insert
  insert-NodupKeys k v [] h = (tt, tt)
  insert-NodupKeys k v ((i, w) ∷ d) h =
      ground (arith, e.beq_iff i k, Absent-insert k i v d, insert-NodupKeys k v d h.1)

  pub insert_of_Absent :
      (k : K) (v : V) (d : List (K × V)) → Absent k d → insert k v d ≡ d ++ ((k, v) ∷ [])
  unfolding insert
  insert_of_Absent k v [] h = refl
  insert_of_Absent k v ((i, w) ∷ d) h = ground (arith, e.beq_iff i k, insert_of_Absent k v d h.1)

  pub erase_of_Absent : (k : K) (d : List (K × V)) → Absent k d → erase k d ≡ d
  unfolding erase
  erase_of_Absent k [] h = refl
  erase_of_Absent k ((i, w) ∷ d) h = ground (arith, e.beq_iff i k, erase_of_Absent k d h.1)
