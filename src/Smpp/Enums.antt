-- ===== src/Smpp/Enums.antt =====
-- The enumerations in the configurations of src/vumi2/transports/smpp/processors.py: `convert_enum`
-- and `conv_enum_list`. The members of an enumeration are its names with their values.
use vumi.Prelude.{
  ℕ, ◌≡◌, refl, ◌∙◌, String, string_eq, none, some, List, [], ◌∷◌, ◌++◌, map, Result, ok, err,
  ◌>>=◌, key_error, type_error, Error,
}
use vumi.Prelude.Dict

-- What stands in a configuration: `int`, `str`, or a member.
pub data Given (E : Type 0) : Type 0 where
  number : ℕ → Given E
  name : String → Given E
  member : E → Given E

module _ {E : Type 0} (enum : List (String × E)) where
  -- `_convert_enum`
  unfoldable pub convert_enum : Given E → Result E
  unfolding Dict.lookup
  convert_enum (number n) = err type_error
  convert_enum (name s) = elim (Dict.lookup s enum) [ none ↦ err key_error | some e ↦ ok e ]
  convert_enum (member e) = ok e

  -- `_conv_enum_list`
  unfoldable pub conv_enum_list : List (Given E) → Result (List E)
  unfolding convert_enum
  conv_enum_list [] = ok []
  conv_enum_list (v ∷ vs) = convert_enum v >>= λ e. conv_enum_list vs >>= λ es. ok (e ∷ es)

  -- Values with what they convert to.
  abbrev pub AllConvert : List (Given E × E) → Type 0
  AllConvert [] = Unit
  AllConvert ((v, e) ∷ rest) = (convert_enum v ≡ ok e) × AllConvert rest

  -- A list of values that convert becomes the list of what they convert to; the first one that
  -- does not decides the exception, whatever is behind it.
  pub conv_enum_list-convert_enum :
      (good : List (Given E × E)) (rest : List (Given E))
      → AllConvert good
      → conv_enum_list (map (λ (p : Given E × E). p.0) good ++ rest)
        ≡ (conv_enum_list rest >>= λ es. ok (map (λ (p : Given E × E). p.1) good ++ es))
  unfolding conv_enum_list
  conv_enum_list-convert_enum [] rest h = go (conv_enum_list rest)
    where
      go : (r : Result (List E)) → r ≡ (r >>= λ es. ok es)
      go (err e) = refl
      go (ok es) = refl
  conv_enum_list-convert_enum ((v, e) ∷ good) rest h =
      rw (h.0, conv_enum_list-convert_enum good rest h.1) (go (conv_enum_list rest))
    where
      go :
          (r : Result (List E))
          → ((r >>= λ es. ok (map (λ (p : Given E × E). p.1) good ++ es)) >>= λ es. ok (e ∷ es))
            ≡ (r >>= λ es. ok (e ∷ (map (λ (p : Given E × E). p.1) good ++ es)))
      go (err x) = refl
      go (ok es) = refl

  -- So a value that does not convert is the exception of the list.
  pub conv_enum_list_fails :
      (good : List (Given E × E)) (v : Given E) (rest : List (Given E)) (x : Error)
      → AllConvert good
      → convert_enum v ≡ err x
      → conv_enum_list (map (λ (p : Given E × E). p.0) good ++ (v ∷ rest)) ≡ err x
  unfolding conv_enum_list
  conv_enum_list_fails good v rest x h bad =
      conv_enum_list-convert_enum good (v ∷ rest) h ∙ rw bad refl
