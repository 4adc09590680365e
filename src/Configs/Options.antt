-- ===== src/Configs/Options.antt =====
-- The options of the command line: `worker_config_options` of src/vumi2/cli.py over
-- `walk_config_class`, and the attributes under which `load_cli` of src/vumi2/config.py reads them.
use mathlib.Core.List.{map-append}
use text.Mathlib.TextLemmas.{cons-append, nil-append, append-nil}
use vumi.Prelude.{
  String, ◌<>◌, Char, Bool, true, false, not, List, [], ◌∷◌, ◌++◌, map, ◌==◌, string_eq, char_eq,
  lstrip, ◌≡◌, refl, sym, ap, ◌∙◌, if◌then◌else◌, arith, All, Bool-cases, inl, inr, if-both,
}
use vumi.Configs.{Attributes, done, plain, nested, join_parts, given_parts, create_cli_key}

-- `text.replace(old, new)`, of characters.
unfoldable pub replace : (old new : Char) → String → String
replace old new String.[] = ""
replace old new (String.◌∷◌ c s) = String.◌∷◌ (if c == old then new else c) (replace old new s)

abbrev pub join_dashes : List String → String
join_dashes [] = ""
join_dashes (x ∷ []) = x
join_dashes (x ∷ y ∷ xs) = x <> ("-" <> join_dashes (y ∷ xs))

-- `_create_argument_key`
unfoldable pub create_argument_key : (lower : String → String) → List String → String
unfolding replace
create_argument_key lower parts =
    join_dashes (map (λ part. replace "_" "-" (lower part)) (given_parts parts))

-- What argparse makes of an option `--key`: the name of the attribute, for which the dashes at
-- the front are stripped and the others replaced.
abbrev pub dest : (key : String) → String
dest key = replace "-" "_" (lstrip "-" (String.◌∷◌ "-" (String.◌∷◌ "-" key)))

-- `worker_config_options`: the keys of the options, in the order of the walk.
unfoldable pub worker_config_options :
    (lower : String → String) (prefix : List String) → Attributes → List String
unfolding create_argument_key
worker_config_options lower prefix done = []
worker_config_options lower prefix (plain name rest) =
    create_argument_key lower (prefix ++ (name ∷ [])) ∷ worker_config_options lower prefix rest
worker_config_options lower prefix (nested name inner rest) =
    worker_config_options lower (prefix ++ (name ∷ [])) inner
    ++ worker_config_options lower prefix rest

-- The attributes that `load_config_from_cli` reads, in the order of the walk.
abbrev pub cli_keys : (prefix : List String) → Attributes → List String
cli_keys prefix done = []
cli_keys prefix (plain name rest) = create_cli_key (prefix ++ (name ∷ [])) ∷ cli_keys prefix rest
cli_keys prefix (nested name inner rest) =
    cli_keys (prefix ++ (name ∷ [])) inner ++ cli_keys prefix rest

-- No dash in a text.
abbrev pub dashless : String → Bool
dashless String.[] = true
dashless (String.◌∷◌ c s) = let rest = dashless s in if c == "-" then false else rest

-- No underscore at the front.
abbrev pub is_public : String → Bool
is_public String.[] = true
is_public (String.◌∷◌ c s) = not (c == "_")

-- A name that `str.lower` leaves as it is, without a dash, and without an underscore at the front.
abbrev pub IsName : (lower : String → String) → String → Type 0
IsName lower s = (lower s ≡ s) × (dashless s ≡ true) × (is_public s ≡ true)

abbrev pub AllNames : (lower : String → String) → Attributes → Type 0
AllNames lower done = Unit
AllNames lower (plain name rest) = IsName lower name × AllNames lower rest
AllNames lower (nested name inner rest) =
    IsName lower name × (AllNames lower inner × AllNames lower rest)

replace-append :
    (old new : Char) (s t : String)
    → replace old new (s <> t) ≡ replace old new s <> replace old new t
unfolding replace
replace-append old new String.[] t =
    ap (replace old new) (nil-append t) ∙ sym (nil-append (replace old new t))
replace-append old new (String.◌∷◌ c s) t =
    ap (replace old new) (cons-append c s t)
    ∙ (ap (String.◌∷◌ (if c == old then new else c)) (replace-append old new s t)
        ∙ sym (cons-append (if c == old then new else c) (replace old new s) (replace old new t)))

char_back :
    (c : Char)
    → (c == "-") ≡ false
    → (let d = if c == "_" then "-" else c in if d == "-" then "_" else d) ≡ c
char_back c h = elim (Bool-cases (c == "_")) [
  | inl e ↦ rw e (sym ((char_eq.beq_iff c "_").0 e))
  | inr e ↦ rw (e, h) refl
]

replace_back : (s : String) → dashless s ≡ true → replace "-" "_" (replace "_" "-" s) ≡ s
unfolding replace
replace_back String.[] h = refl
replace_back (String.◌∷◌ c s) h =
    let later : dashless s ≡ true = ground (arith, h) in
    let no_dash : (c == "-") ≡ false = ground (arith, h) in
    λ i. String.◌∷◌ (char_back c no_dash i) (replace_back s later i)

-- There is nothing to strip from a text with a name at the front.
lstrip_name :
    (x t : String)
    → (x == "") ≡ false
    → dashless x ≡ true
    → is_public x ≡ true
    → lstrip "-" (replace "_" "-" x <> t) ≡ replace "_" "-" x <> t
unfolding replace lstrip
lstrip_name String.[] t n h k = cc
lstrip_name (String.◌∷◌ c s) t n h k =
    let no_dash : (c == "-") ≡ false = ground (arith, h) in
    let no_underscore : (c == "_") ≡ false = ground (arith, k) in
    let front : (if c == "_" then "-" else c) ≡ c = rw no_underscore refl in
    let whole : replace "_" "-" (String.◌∷◌ c s) <> t ≡ String.◌∷◌ c (replace "_" "-" s <> t) =
      ap (λ d. String.◌∷◌ d (replace "_" "-" s) <> t) front ∙ cons-append c (replace "_" "-" s) t in
    ap (lstrip "-") whole ∙ (rw no_dash refl ∙ sym whole)

module _ (lower : String → String) where
  abbrev joined : List String → String
  joined parts = join_dashes (map (λ part. replace "_" "-" (lower part)) parts)

  lstrip-joined :
      (x : String) (xs : List String)
      → (x == "") ≡ false
      → IsName lower x
      → lstrip "-" (joined (x ∷ xs)) ≡ joined (x ∷ xs)
  lstrip-joined x [] n h =
      let whole : replace "_" "-" (lower x) ≡ replace "_" "-" x <> "" =
        ap (replace "_" "-") h.0 ∙ sym (append-nil (replace "_" "-" x)) in
      ap (lstrip "-") whole ∙ (lstrip_name x "" n h.1 h.2 ∙ sym whole)
  lstrip-joined x (y ∷ ys) n h =
      let whole : joined (x ∷ y ∷ ys) ≡ replace "_" "-" x <> ("-" <> joined (y ∷ ys)) =
        ap (λ u. replace "_" "-" u <> ("-" <> joined (y ∷ ys))) h.0 in
      ap (lstrip "-") whole ∙ (lstrip_name x ("-" <> joined (y ∷ ys)) n h.1 h.2 ∙ sym whole)

  lstrip-given :
      (parts : List String)
      → All (IsName lower) parts
      → lstrip "-" (joined (given_parts parts)) ≡ joined (given_parts parts)
  unfolding lstrip
  lstrip-given [] h = refl
  lstrip-given (x ∷ xs) h = elim (Bool-cases (x == "")) [
    | inl e ↦ rw e (lstrip-given xs h.1)
    | inr e ↦ rw e (lstrip-joined x (given_parts xs) e h.0)
  ]

  join-dest :
      (parts : List String)
      → All (IsName lower) parts
      → replace "-" "_" (join_dashes (map (λ part. replace "_" "-" (lower part)) parts))
        ≡ join_parts parts
  unfolding replace
  join-dest [] h = refl
  join-dest (x ∷ []) h = ap (λ y. replace "-" "_" (replace "_" "-" y)) h.0.0 ∙ replace_back x h.0.1
  join-dest (x ∷ y ∷ xs) h =
      replace-append "-" "_" (replace "_" "-" (lower x))
        ("-" <> join_dashes (map (λ part. replace "_" "-" (lower part)) (y ∷ xs)))
      ∙ (λ i.
          (ap (λ y. replace "-" "_" (replace "_" "-" y)) h.0.0 ∙ replace_back x h.0.1) i
          <> (replace-append "-" "_" "-"
                  (join_dashes (map (λ part. replace "_" "-" (lower part)) (y ∷ xs)))
                ∙ ap (λ k. "_" <> k) (join-dest (y ∷ xs) h.1))
              i)

  given-All :
      (parts : List String) → All (IsName lower) parts → All (IsName lower) (given_parts parts)
  given-All [] h = tt
  given-All (x ∷ xs) h =
      if-both (All (IsName lower)) (not (x == "")) (h.0, given-All xs h.1) (given-All xs h.1)

  create_argument_key-dest :
      (parts : List String)
      → All (IsName lower) parts
      → dest (create_argument_key lower parts) ≡ create_cli_key parts
  unfolding create_argument_key create_cli_key lstrip
  create_argument_key-dest parts h =
      ap (replace "-" "_") (lstrip-given parts h)
      ∙ join-dest (given_parts parts) (given-All parts h)

  All-snoc :
      (xs : List String) (x : String)
      → All (IsName lower) xs
      → IsName lower x
      → All (IsName lower) (xs ++ (x ∷ []))
  All-snoc [] x h k = (k, tt)
  All-snoc (y ∷ ys) x h k = (h.0, All-snoc ys x h.1 k)

  -- Every option that the command line has for a configuration class arrives under the attribute
  -- from which that class's field is read, and there is one option for each field: where
  -- `str.lower` leaves the names of the fields as they are, and none has a dash or begins with an
  -- underscore.
  pub worker_config_options-dest :
      (cls : Attributes) (prefix : List String)
      → AllNames lower cls
      → All (IsName lower) prefix
      → map dest (worker_config_options lower prefix cls) ≡ cli_keys prefix cls
  unfolding worker_config_options
  worker_config_options-dest done prefix h k = refl
  worker_config_options-dest (plain name rest) prefix h k = λ i.
      create_argument_key-dest (prefix ++ (name ∷ [])) (All-snoc prefix name k h.0) i
      ∷ worker_config_options-dest rest prefix h.1 k i
  worker_config_options-dest (nested name inner rest) prefix h k =
      map-append dest (worker_config_options lower (prefix ++ (name ∷ [])) inner)
        (worker_config_options lower prefix rest)
      ∙ λ i.
          worker_config_options-dest inner (prefix ++ (name ∷ [])) h.1.0
            (All-snoc prefix name k h.0) i
          ++ worker_config_options-dest rest prefix h.1.1 k i
