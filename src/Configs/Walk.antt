-- ===== src/Configs/Walk.antt =====
-- What `walk_config_class` (src/vumi2/config.py) asks for, and where it puts the answers.
use text.Mathlib.TextEquality.{eq_iff}
use mathlib.Core.Path.{subst}
use vumi.Prelude.{
  String, ◌≡◌, ◌≢◌, refl, sym, ap, ◌∙◌, ◌⊎◌, inl, inr, Option, none, some, List, [], ◌∷◌, ◌++◌,
  string_eq, beq_self, arith,
}
use vumi.Messages.Value.{Fields, Value, end, obj, get, put}
use vumi.Messages.Value.Laws.{get-put, find, inside, Missing}
use vumi.Configs.{Attributes, done, plain, nested, put_given, walk_config_class}

-- No field of the class has the name.
abbrev pub Lacks : String → Attributes → Type 0
Lacks k done = Unit
Lacks k (plain name rest) = (name ≢ k) × Lacks k rest
Lacks k (nested name inner rest) = (name ≢ k) × Lacks k rest

-- The fields of a class have different names, as in Python.
abbrev pub Distinct : Attributes → Type 0
Distinct done = Unit
Distinct (plain name rest) = Lacks name rest × Distinct rest
Distinct (nested name inner rest) = Lacks name rest × Distinct inner × Distinct rest

-- A plain field.
abbrev pub Plain : String → Attributes → Type 0
Plain k done = ⊥
Plain k (plain name rest) = (name ≡ k) ⊎ Plain k rest
Plain k (nested name inner rest) = Plain k rest

-- A field with the class `c`.
abbrev pub Nested : String → Attributes → Attributes → Type 0
Nested k c done = ⊥
Nested k c (plain name rest) = Nested k c rest
Nested k c (nested name inner rest) = ((name ≡ k) × (inner ≡ c)) ⊎ Nested k c rest

-- The path of a plain field in the class or in those inside it.
abbrev pub HasField : List String → Attributes → Type 0
HasField [] cls = ⊥
HasField (k ∷ []) cls = Plain k cls
HasField (k ∷ j ∷ ks) cls = (c : Attributes) × Nested k c cls × HasField (j ∷ ks) c

-- A name that the class lacks is not one of its fields.
Plain-ne : (k name : String) (cls : Attributes) → Lacks name cls → Plain k cls → name ≢ k
Plain-ne k name done l h e = h
Plain-ne k name (plain n rest) l (inl same) e = l.0 (same ∙ sym e)
Plain-ne k name (plain n rest) l (inr h) e = Plain-ne k name rest l.1 h e
Plain-ne k name (nested n inner rest) l h e = Plain-ne k name rest l.1 h e

Nested-ne : (k name : String) (c cls : Attributes) → Lacks name cls → Nested k c cls → name ≢ k
Nested-ne k name c done l h e = h
Nested-ne k name c (plain n rest) l h e = Nested-ne k name c rest l.1 h e
Nested-ne k name c (nested n inner rest) l (inl h) e = l.0 (h.0 ∙ sym e)
Nested-ne k name c (nested n inner rest) l (inr h) e = Nested-ne k name c rest l.1 h e

get-end : (k : String) → get k end ≡ none
unfolding get
get-end k = refl

module _ (fn : String → List String → Option Value) where
  -- The answer for the field at a path.
  abbrev pub ask : List String → List String → Option Value
  ask prefix [] = none
  ask prefix (k ∷ []) = fn k prefix
  ask prefix (k ∷ j ∷ ks) = ask (prefix ++ (k ∷ [])) (j ∷ ks)

  get-put_given :
      (k name : String) (o : Option Value) (result : Fields)
      → name ≢ k
      → get k (put_given name o result) ≡ get k result
  unfolding put_given
  get-put_given k name none result h = refl
  get-put_given k name (some v) result h = get-put k name v result ∙ ground (arith, eq_iff name k)

  get-put_given_self :
      (name : String) (o : Option Value) (result : Fields)
      → get name result ≡ none
      → get name (put_given name o result) ≡ o
  unfolding put_given
  get-put_given_self name none result h = h
  get-put_given_self name (some v) result h = get-put name name v result ∙ rw (beq_self name) refl

  -- The names of other fields keep their values.
  walk-Lacks :
      (k : String) (cls : Attributes) (prefix : List String) (result : Fields)
      → Lacks k cls
      → get k (walk_config_class fn prefix result cls) ≡ get k result
  unfolding walk_config_class
  walk-Lacks k done prefix result h = refl
  walk-Lacks k (plain name rest) prefix result h =
      walk-Lacks k rest prefix (put_given name (fn name prefix) result) h.1
      ∙ get-put_given k name (fn name prefix) result h.0
  walk-Lacks k (nested name inner rest) prefix result h =
      let v = obj (walk_config_class fn (prefix ++ (name ∷ [])) end inner) in
      walk-Lacks k rest prefix (put name v result) h.1 ∙ get-put_given k name (some v) result h.0

  -- The answer for a plain field is at its name.
  walk-Plain :
      (k : String) (cls : Attributes) (prefix : List String) (result : Fields)
      → Distinct cls
      → Plain k cls
      → get k result ≡ none
      → get k (walk_config_class fn prefix result cls) ≡ fn k prefix
  unfolding walk_config_class
  walk-Plain k done prefix result u h free = absurd h
  walk-Plain k (plain name rest) prefix result u (inl same) free =
      let o = fn name prefix in
      subst (λ i. get i (walk_config_class fn prefix (put_given name o result) rest) ≡ fn i prefix)
        same
        (walk-Lacks name rest prefix (put_given name o result) u.0
          ∙ get-put_given_self name o result (subst (λ i. get i result ≡ none) (sym same) free))
  walk-Plain k (plain name rest) prefix result u (inr h) free =
      walk-Plain k rest prefix (put_given name (fn name prefix) result) u.1 h
        (get-put_given k name (fn name prefix) result (Plain-ne k name rest u.0 h) ∙ free)
  walk-Plain k (nested name inner rest) prefix result u h free =
      let v = obj (walk_config_class fn (prefix ++ (name ∷ [])) end inner) in
      walk-Plain k rest prefix (put name v result) u.2 h
        (get-put_given k name (some v) result (Plain-ne k name rest u.0 h) ∙ free)

  -- The dictionary of a field with a class of its own is at its name.
  walk-Nested :
      (k : String) (c cls : Attributes) (prefix : List String) (result : Fields)
      → Distinct cls
      → Nested k c cls
      → get k (walk_config_class fn prefix result cls)
        ≡ some (obj (walk_config_class fn (prefix ++ (k ∷ [])) end c))
  unfolding walk_config_class
  walk-Nested k c done prefix result u h = absurd h
  walk-Nested k c (plain name rest) prefix result u h =
      walk-Nested k c rest prefix (put_given name (fn name prefix) result) u.1 h
  walk-Nested k c (nested name inner rest) prefix result u (inr h) =
      let v = obj (walk_config_class fn (prefix ++ (name ∷ [])) end inner) in
      walk-Nested k c rest prefix (put name v result) u.2 h
  walk-Nested k c (nested name inner rest) prefix result u (inl h) =
      let v = obj (walk_config_class fn (prefix ++ (name ∷ [])) end inner) in
      let here =
        walk-Lacks name rest prefix (put name v result) u.0
        ∙ get-put name name v result
        ∙ rw (beq_self name) refl in
      subst
        (λ i.
          get i (walk_config_class fn prefix (put name v result) rest)
          ≡ some (obj (walk_config_class fn (prefix ++ (i ∷ [])) end c)))
        h.0
        (here
          ∙ ap (λ (x : Attributes). some (obj (walk_config_class fn (prefix ++ (name ∷ [])) end x)))
              h.1)

  Distinct-Nested : (k : String) (c cls : Attributes) → Distinct cls → Nested k c cls → Distinct c
  Distinct-Nested k c done u h = absurd h
  Distinct-Nested k c (plain name rest) u h = Distinct-Nested k c rest u.1 h
  Distinct-Nested k c (nested name inner rest) u (inl h) = subst (λ x. Distinct x) h.1 u.1
  Distinct-Nested k c (nested name inner rest) u (inr h) = Distinct-Nested k c rest u.2 h

  -- At the path of a plain field is the answer for it.
  pub find-walk :
      (p : List String) (cls : Attributes) (prefix : List String)
      → Distinct cls
      → HasField p cls
      → find p (walk_config_class fn prefix end cls) ≡ ask prefix p
  unfolding find
  find-walk [] cls prefix u h = absurd h
  find-walk (k ∷ []) cls prefix u h = walk-Plain k cls prefix end u h refl
  find-walk (k ∷ j ∷ ks) cls prefix u (c, at_k, h) =
      ap (λ o. inside (λ e. find (j ∷ ks) e) o) (walk-Nested k c cls prefix end u at_k)
      ∙ find-walk (j ∷ ks) c (prefix ++ (k ∷ [])) (Distinct-Nested k c cls u at_k) h

  -- Where there is no answer, nothing is at the path.
  pub walk-Missing :
      (p : List String) (cls : Attributes) (prefix : List String)
      → Distinct cls
      → HasField p cls
      → ask prefix p ≡ none
      → Missing p (walk_config_class fn prefix end cls)
  walk-Missing [] cls prefix u h e = h
  walk-Missing (k ∷ []) cls prefix u h e = walk-Plain k cls prefix end u h (get-end k) ∙ e
  walk-Missing (k ∷ j ∷ ks) cls prefix u (c, at_k, h) e = inr (
    walk_config_class fn (prefix ++ (k ∷ [])) end c,
    walk-Nested k c cls prefix end u at_k,
    walk-Missing (j ∷ ks) c (prefix ++ (k ∷ [])) (Distinct-Nested k c cls u at_k) h e,
  )
