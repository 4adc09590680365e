-- ===== src/Workers/Classes.antt =====
-- `class_from_string` of src/vumi2/class_helpers.py, by which workers, their processors and
-- middlewares are named in a configuration. Python's import is an argument.
pub mod Paths
pub mod Loading
use vumi.Prelude.{
  ℕ, String, ◌<>◌, Char, Bool, true, false, not, Option, none, some, ◌==◌, string_eq, char_eq, ◌≡◌,
  ◌≢◌, refl, sym, ap, ◌∙◌, if◌then◌else◌, arith, ◌⊎◌, inl, inr, Bool-cases, is_in,
}
use text.Mathlib.Text.{starts_with}

-- What `import_module` does: the names that the module has, or the name that is not found, or an
-- exception of the module.
pub data Imported : Type 0 where
  module_with : (attributes : String → Bool) → Imported
  module_not_found : (name : Option String) → Imported
  raises : (exception : String) → Imported

-- What `class_from_string` does. `reraised` is a `ModuleNotFoundError` that it lets through.
pub data Loaded : Type 0 where
  class_of : (module_path class_name : String) → Loaded
  invalid_worker_class : (message : String) → Loaded
  reraised : (name : Option String) → Loaded
  other_exception : (exception : String) → Loaded

-- `_cfs_err`
abbrev pub cfs_err : (class_path msg : String) → Loaded
cfs_err class_path msg = invalid_worker_class ("Error loading '" <> (class_path <> ("': " <> msg)))

-- A character before what `rsplit` has found in the rest, if it has.
abbrev pub cut : Char → String → Option (String × String) → Option (String × String)
cut c s (some (before, after)) = some (String.◌∷◌ c before, after)
cut c s none = if c == "." then some ("", s) else none

-- `text.rsplit(".", 1)`, and nothing for a text without a dot.
unfoldable pub rsplit : String → Option (String × String)
rsplit String.[] = none
rsplit (String.◌∷◌ c s) = cut c s (rsplit s)

-- `str(e.name)`
abbrev pub name_text : Option String → String
name_text none = "None"
name_text (some name) = name

-- `path.startswith(name) and path[len(name)] == "."`, for different texts.
unfoldable pub is_parent : (name path : String) → Bool
is_parent String.[] String.[] = false
is_parent String.[] (String.◌∷◌ c s) = c == "."
is_parent (String.◌∷◌ p ps) String.[] = false
is_parent (String.◌∷◌ p ps) (String.◌∷◌ c s) =
    let rest = is_parent ps s in if p == c then rest else false

-- `str(e)` of a `ModuleNotFoundError`
module _ (import_module : String → Imported) (message : Option String → String) where
  -- What follows the import.
  unfoldable pub after_import : (class_path module_path class_name : String) → Imported → Loaded
  unfolding is_parent
  after_import class_path module_path class_name (raises exception) = other_exception exception
  after_import class_path module_path class_name (module_not_found e) =
      let name = name_text e in
      if name == module_path
      then cfs_err class_path (message e)
      else if is_parent name module_path
      then cfs_err class_path (message e)
      else reraised e
  after_import class_path module_path class_name (module_with hasattr) =
      if hasattr class_name
      then class_of module_path class_name
      else cfs_err class_path ("No class named '" <> (class_name <> "'"))

  unfoldable pub class_from_string : (class_path : String) → Loaded
  unfolding rsplit after_import
  class_from_string class_path = elim (rsplit class_path) [
    | none ↦ cfs_err class_path "Invalid worker class"
    | some (module_path, class_name) ↦
        after_import class_path module_path class_name (import_module module_path)
  ]
