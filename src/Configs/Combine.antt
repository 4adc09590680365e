-- ===== src/Configs/Combine.antt =====
-- What is at a path after `_combine_nested_dictionaries` (src/vumi2/config.py).
use text.Mathlib.TextEquality.{eq_iff}
use mathlib.Core.Path.{subst}
use vumi.Prelude.{
  String, false, ◌≡◌, refl, sym, ap, ◌∙◌, ◌⊎◌, inl, inr, Option, none, some, List, [], ◌∷◌, ok,
  >>=-eq-ok, Bool-cases, ◌==◌, string_eq, arith,
}
use vumi.Messages.Value.{Fields, Value, end, field, obj, get, put}
use vumi.Messages.Value.Laws.{get-put, find, inside, Missing, IsPlain, Unique}
use vumi.Configs.{merged, combine_into}

-- A round of the loop whose value is a dictionary.
step :
    (j : String) (w d result : Fields) {r : Fields}
    → combine_into result (field j (obj w) d) ≡ ok r
    → (m : Fields) × (merged (λ e. combine_into e w) (get j result) ≡ ok m)
      × (combine_into (put j (obj m) result) d ≡ ok r)
unfolding combine_into
step j w d result e =
    >>=-eq-ok (merged (λ e. combine_into e w) (get j result))
      (λ m. combine_into (put j (obj m) result) d) e

-- A key that `d` does not have keeps its value.
combine_into-none :
    (k : String) (result d : Fields) {r : Fields}
    → get k d ≡ none
    → combine_into result d ≡ ok r
    → get k r ≡ get k result
unfolding combine_into get
combine_into-none k result end h e = cc
combine_into-none k result (field j (obj w) d) h e =
    let (m, first, rest) = step j w d result e in
    combine_into-none k (put j (obj m) result) d (ground (arith, eq_iff j k)) rest
    ∙ get-put k j (obj m) result
    ∙ ground (arith, eq_iff j k)
combine_into-none k result (field j v d) h e =
    combine_into-none k (put j v result) d (ground (arith, eq_iff j k)) e
    ∙ get-put k j v result
    ∙ ground (arith, eq_iff j k)

obj_not_plain : (w : Fields) (v : Value) → Option.some (obj w) ≡ some v → IsPlain v → ⊥
obj_not_plain w (obj x) h p = p
obj_not_plain w v h p = cc

not_here :
    (k j : String) (v : Value) (w d : Fields)
    → IsPlain v
    → get k (field j (obj w) d) ≡ some v
    → get k d ≡ some v
unfolding get
not_here k j v w d p h = elim (Bool-cases (j == k)) [
  | inl same ↦ absurd (obj_not_plain w v (rw same at h) p)
  | inr other ↦ rw other at h
]

-- A value of `d` that is no dictionary replaces what was there.
combine_into-IsPlain :
    (k : String) (v : Value) (result d : Fields) {r : Fields}
    → Unique d
    → IsPlain v
    → get k d ≡ some v
    → combine_into result d ≡ ok r
    → get k r ≡ some v
unfolding combine_into get
combine_into-IsPlain k v result end u p h e = cc
combine_into-IsPlain k v result (field j (obj w) d) u p h e =
    let (m, first, rest) = step j w d result e in
    combine_into-IsPlain k v (put j (obj m) result) d u.2 p (not_here k j v w d p h) rest
combine_into-IsPlain k v result (field j x d) u p h e = elim (Bool-cases (j == k)) [
  | inl same ↦
      let gone : get k d ≡ none = subst (λ i. get i d ≡ none) ((eq_iff j k).0 same) u.0 in
      combine_into-none k (put j x result) d gone e ∙ get-put k j x result ∙ rw same (rw same at h)
  | inr other ↦ combine_into-IsPlain k v (put j x result) d u.1 p (rw (other) at h) e
]

obj-inj : (x w : Fields) → Option.some (obj x) ≡ some (obj w) → x ≡ w
obj-inj x w h = cc

-- A write to another key does not matter to what is combined at this one.
later :
    (k j : String) (v : Value) (w result r : Fields)
    → (j == k) ≡ false
    → (m : Fields) × (get k r ≡ some (obj m))
      × (merged (λ e. combine_into e w) (get k (put j v result)) ≡ ok m)
    → (m : Fields) × (get k r ≡ some (obj m))
      × (merged (λ e. combine_into e w) (get k result) ≡ ok m)
later k j v w result r other (m, at_k, combined) = (
  m,
  at_k,
  subst (λ o. merged (λ e. combine_into e w) o ≡ ok m) (get-put k j v result ∙ rw other refl)
      combined,
)

-- A dictionary of `d` is combined with what was there.
combine_into-obj :
    (k : String) (w result d : Fields) {r : Fields}
    → Unique d
    → get k d ≡ some (obj w)
    → combine_into result d ≡ ok r
    → (m : Fields) × (get k r ≡ some (obj m))
      × (merged (λ e. combine_into e w) (get k result) ≡ ok m)
unfolding combine_into get
combine_into-obj k w result end {r} u h e = cc
combine_into-obj k w result (field j (obj x) d) {r} u h e =
    let (m, first, rest) = step j x d result e in
    elim (Bool-cases (j == k)) [
      | inl same ↦ (
        m,
        combine_into-none k (put j (obj m) result) d
              (subst (λ i. get i d ≡ none) ((eq_iff j k).0 same) u.0) rest
            ∙ get-put k j (obj m) result
            ∙ rw same refl,
        subst (λ y. merged (λ e. combine_into e y) (get k result) ≡ ok m)
            (obj-inj x w (rw same at h))
            (subst (λ i. merged (λ e. combine_into e x) (get i result) ≡ ok m) ((eq_iff j k).0 same)
              first),
      )
      | inr other ↦
          later k j (obj m) w result r other
            (combine_into-obj k w (put j (obj m) result) d u.2 (rw other at h) rest)
    ]
combine_into-obj k w result (field j x d) {r} u h e = elim (Bool-cases (j == k)) [
  | inl same ↦ cc (rw same at h)
  | inr other ↦
      later k j x w result r other (combine_into-obj k w (put j x result) d u.1 (rw other at h) e)
]

-- The dictionaries inside one with no key twice have none twice.
Unique-get : (k : String) (w d : Fields) → Unique d → get k d ≡ some (obj w) → Unique w
unfolding get
Unique-get k w end u h = cc
Unique-get k w (field j (obj x) d) u h = elim (Bool-cases (j == k)) [
  | inl same ↦ subst (λ y. Unique y) (obj-inj x w (rw same at h)) u.1
  | inr other ↦ Unique-get k w d u.2 (rw other at h)
]
Unique-get k w (field j x d) u h = elim (Bool-cases (j == k)) [
  | inl same ↦ cc (rw same at h)
  | inr other ↦ Unique-get k w d u.1 (rw other at h)
]

-- The value at a path of two keys or more goes through a dictionary.
find-obj :
    (k j : String) (ks : List String) (d : Fields) (v : Value)
    → find (k ∷ j ∷ ks) d ≡ some v
    → (w : Fields) × (get k d ≡ some (obj w)) × (find (j ∷ ks) w ≡ some v)
unfolding find
find-obj k j ks d v h = go (get k d) refl h
  where
    go :
        (o : Option Value)
        → get k d ≡ o
        → inside (λ e. find (j ∷ ks) e) o ≡ some v
        → (w : Fields) × (get k d ≡ some (obj w)) × (find (j ∷ ks) w ≡ some v)
    go none e f = cc
    go (some (obj w)) e f = (w, e, f)
    go (some x) e f = cc

-- What was there was a dictionary, or nothing.
merged-ok :
    (w m : Fields) (o : Option Value)
    → merged (λ e. combine_into e w) o ≡ ok m
    → (e : Fields) × ((o ≡ some (obj e)) ⊎ ((o ≡ none) × (e ≡ end))) × (combine_into e w ≡ ok m)
merged-ok w m none h = (end, inr (refl, refl), h)
merged-ok w m (some (obj e)) h = (e, inl refl, h)
merged-ok w m (some x) h = cc

-- A value of the second dictionary that is no dictionary is found at its path.
pub find-combine_into-IsPlain :
    (p : List String) (v : Value) (result d : Fields) {r : Fields}
    → Unique d
    → IsPlain v
    → find p d ≡ some v
    → combine_into result d ≡ ok r
    → find p r ≡ some v
unfolding find
find-combine_into-IsPlain [] v result d u q h e = cc
find-combine_into-IsPlain (k ∷ []) v result d u q h e = combine_into-IsPlain k v result d u q h e
find-combine_into-IsPlain (k ∷ j ∷ ks) v result d {r} u q h e =
    let (w, at_k, inside_w) = find-obj k j ks d v h in
    let (m, here, combined) = combine_into-obj k w result d u at_k e in
    let (old, was, both) = merged-ok w m (get k result) combined in
    ap (λ o. inside (λ e. find (j ∷ ks) e) o) here
    ∙ find-combine_into-IsPlain (j ∷ ks) v old w (Unique-get k w d u at_k) q inside_w both

find-end : (p : List String) → find p end ≡ none
unfolding find get
find-end [] = refl
find-end (k ∷ []) = refl
find-end (k ∷ j ∷ ks) = refl

-- What is found at a path that goes through a key is what is found in the dictionary there.
find-through :
    (k j : String) (ks : List String) (d e : Fields)
    → (get k d ≡ some (obj e)) ⊎ ((get k d ≡ none) × (e ≡ end))
    → find (k ∷ j ∷ ks) d ≡ find (j ∷ ks) e
unfolding find
find-through k j ks d e (inl h) = ap (λ o. inside (λ e. find (j ∷ ks) e) o) h
find-through k j ks d e (inr (h, z)) =
    ap (λ o. inside (λ e. find (j ∷ ks) e) o) h
    ∙ sym (find-end (j ∷ ks))
    ∙ ap (λ e. find (j ∷ ks) e) (sym z)

-- A path at which the second dictionary has nothing keeps what the first one has there.
pub find-combine_into-Missing :
    (p : List String) (result d : Fields) {r : Fields}
    → Unique d
    → Missing p d
    → combine_into result d ≡ ok r
    → find p r ≡ find p result
unfolding find
find-combine_into-Missing [] result d u h e = absurd h
find-combine_into-Missing (k ∷ []) result d u h e = combine_into-none k result d h e
find-combine_into-Missing (k ∷ j ∷ ks) result d u (inl h) e =
    ap (λ o. inside (λ e. find (j ∷ ks) e) o) (combine_into-none k result d h e)
find-combine_into-Missing (k ∷ j ∷ ks) result d u (inr (w, at_k, h)) e =
    let (m, here, combined) = combine_into-obj k w result d u at_k e in
    let (old, was, both) = merged-ok w m (get k result) combined in
    ap (λ o. inside (λ e. find (j ∷ ks) e) o) here
    ∙ find-combine_into-Missing (j ∷ ks) old w (Unique-get k w d u at_k) h both
    ∙ sym (find-through k j ks result old was)
