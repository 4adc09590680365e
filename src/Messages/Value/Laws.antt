-- ===== src/Messages/Value/Laws.antt =====
-- The operations of `dict` on JSON objects, and the path through nested ones.
use text.Mathlib.TextEquality.{eq_iff}
use vumi.Prelude.{
  ◌⊎◌, String, ◌≡◌, refl, Option, none, some, List, [], ◌∷◌, ◌==◌, string_eq, if◌then◌else◌, arith,
}
use vumi.Messages.Value.{Fields, Value, end, field, obj, get, put}

pub get-put :
    (j k : String) (v : Value) (d : Fields)
    → get j (put k v d) ≡ (if k == j then some v else get j d)
unfolding get put
get-put j k v end = refl
get-put j k v (field i w d) = ground (arith, eq_iff k j, eq_iff i k, eq_iff i j, get-put j k v d)

-- What a function finds in a value, if that is a dictionary.
abbrev pub inside : (Fields → Option Value) → Option Value → Option Value
inside f none = none
inside f (some (obj e)) = f e
inside f (some _) = none

-- The value at a path of keys.
unfoldable pub find : List String → Fields → Option Value
unfolding get
find [] d = none
find (k ∷ []) d = get k d
find (k ∷ j ∷ ks) d = inside (λ e. find (j ∷ ks) e) (get k d)

-- Nothing at a path, and no value that is no dictionary on the way there.
abbrev pub Missing : List String → Fields → Type 0
Missing [] d = ⊥
Missing (k ∷ []) d = get k d ≡ none
Missing (k ∷ j ∷ ks) d =
    (get k d ≡ none) ⊎ ((e : Fields) × (get k d ≡ some (obj e)) × Missing (j ∷ ks) e)

-- No dictionary.
abbrev pub IsPlain : Value → Type 0
IsPlain (obj d) = ⊥
IsPlain _ = Unit

-- No key twice, in the dictionary and in those inside it.
abbrev pub Unique : Fields → Type 0
Unique end = Unit
Unique (field k (obj w) d) = (get k d ≡ none) × Unique w × Unique d
Unique (field k v d) = (get k d ≡ none) × Unique d
