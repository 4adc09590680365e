-- ===== src/Workers/Classes/Loading.antt =====
-- The outcomes of `class_from_string` in src/vumi2/class_helpers.py.
use mathlib.Core.Path.{subst}
use text.Mathlib.TextEquality.{eq_iff}
use vumi.Prelude.{
  String, ◌<>◌, Bool, true, false, Option, some, ◌==◌, string_eq, ◌≡◌, ◌≢◌, ◌↔◌, refl, sym, ap, ◌∙◌,
  if◌then◌else◌, arith, ◌⊎◌, inl, inr, Bool-cases,
}
use vumi.Workers.Classes.{
  Imported, module_with, module_not_found, raises, class_of, cfs_err, reraised, is_parent,
  after_import, class_from_string,
}
use vumi.Workers.Classes.Paths.{
  has_dot, rsplit-join, rsplit-dotless, is_parent-join, is_parent-prefix, path-Cases,
}

-- The module of this path, or a package that contains it.
abbrev pub IsWithin : (name path : String) → Type 0
IsWithin name path = (name ≡ path) ⊎ ((rest : String) × (path ≡ name <> ("." <> rest)))

module _ (import_module : String → Imported) (message : Option String → String) where
  class_from_string-join :
      (m c : String)
      → has_dot c ≡ false
      → class_from_string import_module message (m <> ("." <> c))
        ≡ after_import import_module message (m <> ("." <> c)) m c (import_module m)
  unfolding class_from_string
  class_from_string-join m c h = rw (rsplit-join m c h, class_from_string) refl

  -- The test of the two names says where the missing module is.
  IsWithin-tested :
      (name path : String)
      → IsWithin name path
      → (if name == path then true else is_parent name path) ≡ true
  IsWithin-tested name path (inl p) = ground (arith, eq_iff name path)
  IsWithin-tested name path (inr (rest, p)) =
      ground (arith, ap (is_parent name) p ∙ is_parent-join name rest)

  tested-IsWithin :
      (name path : String)
      → (if name == path then true else is_parent name path) ≡ true
      → IsWithin name path
  tested-IsWithin name path h = elim (Bool-cases (name == path)) [
    | inl e ↦ inl ((eq_iff name path).0 e)
    | inr e ↦ inr (is_parent-prefix name path (sym (rw e refl) ∙ h))
  ]

  not_found :
      (path m c name : String)
      → after_import import_module message path m c (module_not_found (some name)) ≡ (
          if (if name == m then true else is_parent name m)
          then cfs_err path (message (some name))
          else reraised (some name))
  unfolding after_import
  not_found path m c name = ground arith

  -- Of a path `m.c` with no dot in `c`, where a module is not found at the import of `m`: the
  -- exception becomes an `InvalidWorkerClass` if that module is `m` or a package that contains
  -- `m`, and only then; in every other case it is raised again.
  pub class_from_string-missing :
      (m c name : String)
      → has_dot c ≡ false
      → import_module m ≡ module_not_found (some name)
      → ((class_from_string import_module message (m <> ("." <> c))
            ≡ cfs_err (m <> ("." <> c)) (message (some name)))
          ↔ IsWithin name m)
        × ((class_from_string import_module message (m <> ("." <> c)) ≡ reraised (some name))
            ↔ (IsWithin name m → ⊥))
  class_from_string-missing m c name d missing = elim (Bool-cases test) [
    | inl e ↦ (
      (λ h. tested-IsWithin name m e, λ w. outcome ∙ rw e refl),
      (
        λ h w. two_results (sym h ∙ (outcome ∙ rw e refl)),
        λ n. absurd (n (tested-IsWithin name m e)),
      ),
    )
    | inr e ↦ (
      (
        λ h. absurd (two_results (sym (outcome ∙ rw e refl) ∙ h)),
        λ w. absurd (true≢false (sym (IsWithin-tested name m w) ∙ e)),
      ),
      (λ h w. true≢false (sym (IsWithin-tested name m w) ∙ e), λ n. outcome ∙ rw e refl),
    )
  ]
    where
      test : Bool
      test = if name == m then true else is_parent name m

      outcome : class_from_string import_module message (m <> ("." <> c)) ≡ (
          if (if name == m then true else is_parent name m)
          then cfs_err (m <> ("." <> c)) (message (some name))
          else reraised (some name))
      outcome =
          class_from_string-join m c d
          ∙ ap (after_import import_module message (m <> ("." <> c)) m c) missing
          ∙ not_found (m <> ("." <> c)) m c name

      true≢false : true ≢ false
      true≢false p = ground arith

      two_results : reraised (some name) ≢ cfs_err (m <> ("." <> c)) (message (some name))
      two_results p = ground arith

  class_from_string-dotless :
      (path : String)
      → has_dot path ≡ false
      → class_from_string import_module message path ≡ cfs_err path "Invalid worker class"
  unfolding class_from_string
  class_from_string-dotless path d = rw (rsplit-dotless path d, class_from_string) refl

  -- An import that leads to a class had the class.
  abbrev pub Has : Imported → String → Type 0
  Has i c = (attributes : String → Bool) × ((i ≡ module_with attributes) × (attributes c ≡ true))

  after_import-class :
      (path m c m' c' : String) (i : Imported)
      → after_import import_module message path m c i ≡ class_of m' c'
      → (m ≡ m') × ((c ≡ c') × Has i c)
  unfolding after_import
  after_import-class path m c m' c' (raises e) h = ground (arith, h)
  after_import-class path m c m' c' (module_not_found e) h = ground (arith, h)
  after_import-class path m c m' c' (module_with a) h = elim (Bool-cases (a c)) [
    | inl e ↦
        let p : class_of m c ≡ class_of m' c' = sym (rw e refl) ∙ h in (cc, (cc, (a, (refl, e))))
    | inr e ↦
        let p : cfs_err path ("No class named '" <> (c <> "'")) ≡ class_of m' c' =
          sym (rw e refl) ∙ h in
        ground (arith, p)
  ]

  -- A class is returned for one path only: that of its module, a dot, and its name, which has no
  -- dot; and the module has that name.
  pub class_from_string-class :
      (path m c : String)
      → class_from_string import_module message path ≡ class_of m c
      → (path ≡ m <> ("." <> c)) × ((has_dot c ≡ false) × Has (import_module m) c)
  class_from_string-class path m c h = elim (path-Cases path) [
    | inl d ↦ absurd (no_class (sym (class_from_string-dotless path d) ∙ h))
    | inr (n, (e, (p, d))) ↦
        let (same, (equal, has)) = after_import-class (n <> ("." <> e)) n e m c (import_module n) (
          sym (class_from_string-join n e d)
          ∙ (ap (class_from_string import_module message) (sym p) ∙ h)) in
        (
          p ∙ (λ i. same i <> ("." <> equal i)),
          (
            ap has_dot (sym equal) ∙ d,
            subst (λ x. Has (import_module x) c) same
                (subst (λ x. Has (import_module n) x) equal has),
          ),
        )
  ]
    where
      no_class : cfs_err path "Invalid worker class" ≢ class_of m c
      no_class p = ground arith
