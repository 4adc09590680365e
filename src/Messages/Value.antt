-- ===== src/Messages/Value.antt =====
-- The values of a JSON document or of a metadata dictionary, as Python's `json` and `yaml` give
-- them, and the operations of `dict` on its objects.
pub mod Laws
use vumi.Prelude.{
  ℕ, zero, String, Bool, true, false, not, Option, none, some, ◌==◌, string_eq, decimal, is_in,
  Result, ok, err, key_error, type_error, if◌then◌else◌,
}

mutual
  pub data Fields : Type 0 where
    end : Fields
    field : String → Value → Fields → Fields

  pub data Value : Type 0 where
    obj : Fields → Value
    arr : Items → Value
    str : String → Value
    num : ℕ → Value
    bool : Bool → Value
    null : Value

  pub data Items : Type 0 where
    cons : Value → Items → Items
    nil : Items

-- `d.get(k)`
unfoldable pub get : String → Fields → Option Value
get k end = none
get k (field j v d) = if j == k then some v else get k d

-- `d[k] = v`
unfoldable pub put : String → Value → Fields → Fields
put k v end = field k v end
put k v (field j w d) = if j == k then field j v d else field j w (put k v d)

-- `d.pop(k, None)`, what is left
unfoldable pub remove : String → Fields → Fields
remove k end = end
remove k (field j v d) = if j == k then d else field j v (remove k d)

-- A text or `None`.
abbrev pub opt_str : Option String → Value
opt_str none = null
opt_str (some s) = str s

-- `v is None`
abbrev pub is_null : Value → Bool
is_null null = true
is_null _ = false

-- `data.get(key, default)`
abbrev pub get_or : String → Value → Fields → Value
get_or key default d = elim (get key d) [ none ↦ default | some v ↦ v ]

-- `d.pop(k, None)`, where only a value that is not `None` counts.
unfoldable pub pop : String → Fields → Option Value × Fields
unfolding get remove
pop k d = elim (get k d) [
  | none ↦ (none, d)
  | some v ↦ (if is_null v then none else some v, remove k d)
]

-- The truth of a value in `if`.
unfoldable pub is_true : Value → Bool
is_true (obj end) = false
is_true (arr nil) = false
is_true (str s) = not (s == "")
is_true (num zero) = false
is_true (bool b) = b
is_true null = false
is_true _ = true

unfoldable pub is_member : String → Items → Bool
is_member key nil = false
is_member key (cons (str s) vs) = let rest = is_member key vs in if s == key then true else rest
is_member key (cons v vs) = is_member key vs

-- `key in value`, for a value of any type.
unfoldable pub has_key : String → Value → Result Bool
unfolding get is_in is_member
has_key key (obj d) = ok (elim (get key d) [ none ↦ false | some v ↦ true ])
has_key key (str s) = ok (is_in key s)
has_key key (arr vs) = ok (is_member key vs)
has_key key _ = err type_error

-- `value[key]`, for a value of any type.
unfoldable pub item : String → Value → Result Value
unfolding get
item key (obj d) = elim (get key d) [ none ↦ err key_error | some v ↦ ok v ]
item key _ = err type_error

-- `str(value)`. `show` is the text of a list or a dict.
unfoldable pub text_of : (show : Value → String) → Value → String
unfolding decimal
text_of show (str s) = s
text_of show null = "None"
text_of show (bool true) = "True"
text_of show (bool false) = "False"
text_of show (num n) = decimal n
text_of show v = show v

-- What a field of type `str | None` makes of a value.
unfoldable pub opt_text : (show : Value → String) → Value → Option String
unfolding text_of
opt_text show null = none
opt_text show v = some (text_of show v)
