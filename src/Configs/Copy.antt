-- ===== src/Configs/Copy.antt =====
-- A dictionary that is combined with an empty one stays as it is (`_combine_nested_dictionaries` of
-- src/vumi2/config.py).
use text.Mathlib.TextEquality.{eq_iff}
use vumi.Prelude.{String, ◌≡◌, refl, sym, ap, ◌∙◌, none, ok, string_eq, arith, ◌>>=◌}
use vumi.Messages.Value.{Fields, Value, end, field, obj, get, put}
use vumi.Messages.Value.Laws.{get-put, Unique}
use vumi.Configs.{merged, combine_into}

append : Fields → Fields → Fields
append end d = d
append (field k v a) d = field k v (append a d)

append-end : (a : Fields) → append a end ≡ a
unfolding append
append-end end = refl
append-end (field k v a) = ap (field k v) (append-end a)

append-field :
    (a d : Fields) (k : String) (v : Value)
    → append (append a (field k v end)) d ≡ append a (field k v d)
unfolding append
append-field end d k v = refl
append-field (field j x a) d k v = ap (field j x) (append-field a d k v)

put-none :
    (k : String) (v : Value) (a : Fields) → get k a ≡ none → put k v a ≡ append a (field k v end)
unfolding get put append
put-none k v end h = refl
put-none k v (field j x a) h = ground (arith, put-none k v a)

-- No key of the second is in the first.
abbrev Disjoint : Fields → Fields → Type 0
Disjoint a end = Unit
Disjoint a (field k v d) = (get k a ≡ none) × Disjoint a d

Disjoint-end : (d : Fields) → Disjoint end d
unfolding get
Disjoint-end end = tt
Disjoint-end (field k v d) = (refl, Disjoint-end d)

Disjoint-put :
    (k : String) (v : Value) (a d : Fields) → get k d ≡ none → Disjoint a d → Disjoint (put k v a) d
unfolding get
Disjoint-put k v a end h u = tt
Disjoint-put k v a (field j x d) h u = (
  get-put j k v a ∙ ground (arith, eq_iff k j, eq_iff j k),
  Disjoint-put k v a d (ground (arith, eq_iff j k)) u.1,
)

combine_into-append : (a d : Fields) → Unique d → Disjoint a d → combine_into a d ≡ ok (append a d)
unfolding combine_into append
combine_into-append a end u h = ap ok (sym (append-end a))
combine_into-append a (field k (obj w) d) u h =
    let next = λ (m : Fields). combine_into (put k (obj m) a) d in
    ap (λ o. merged (λ e. combine_into e w) o >>= next) h.0
    ∙ ap (λ m. m >>= next) (combine_into-append end w u.1 (Disjoint-end w))
    ∙ combine_into-append (put k (obj w) a) d u.2 (Disjoint-put k (obj w) a d u.0 h.1)
    ∙ ap ok (ap (λ b. append b d) (put-none k (obj w) a h.0) ∙ append-field a d k (obj w))
combine_into-append a (field k v d) u h =
    combine_into-append (put k v a) d u.1 (Disjoint-put k v a d u.0 h.1)
    ∙ ap ok (ap (λ b. append b d) (put-none k v a h.0) ∙ append-field a d k v)

-- Copying a dictionary with no key twice.
pub combine_into-end : (d : Fields) → Unique d → combine_into end d ≡ ok d
unfolding append
combine_into-end d u = combine_into-append end d u (Disjoint-end d)
