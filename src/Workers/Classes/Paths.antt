-- ===== src/Workers/Classes/Paths.antt =====
-- The dotted paths of `class_from_string` in src/vumi2/class_helpers.py.
use text.Mathlib.TextLemmas.{cons-append, nil-append}
use vumi.Prelude.{
  String, ◌<>◌, Char, Bool, true, false, none, some, ◌==◌, string_eq, char_eq, ◌≡◌, ◌≢◌, refl, sym,
  ap, ◌∙◌, if◌then◌else◌, arith, ◌⊎◌, inl, inr, Bool-cases, beq_self,
}
use vumi.Workers.Classes.{cut, rsplit, is_parent}

-- No dot in a text.
abbrev pub has_dot : String → Bool
has_dot String.[] = false
has_dot (String.◌∷◌ c s) = let rest = has_dot s in if c == "." then true else rest

pub rsplit-dotless : (c : String) → has_dot c ≡ false → rsplit c ≡ none
unfolding rsplit
rsplit-dotless String.[] h = refl
rsplit-dotless (String.◌∷◌ x s) h = elim (Bool-cases (x == ".")) [
  | inl e ↦ absurd (true≢false (sym (rw e refl) ∙ h))
  | inr e ↦ rw (rsplit-dotless s (sym (rw e refl) ∙ h), e) refl
]
  where
    true≢false : true ≢ false
    true≢false p = ground arith

dot-append : (c : String) → "." <> c ≡ String.◌∷◌ "." c
dot-append c = cons-append "." "" c ∙ ap (String.◌∷◌ ".") (nil-append c)

rsplit-cons : (x : Char) (s : String) → rsplit (String.◌∷◌ x s) ≡ cut x s (rsplit s)
unfolding rsplit
rsplit-cons x s = refl

pub rsplit-join : (m c : String) → has_dot c ≡ false → rsplit (m <> ("." <> c)) ≡ some (m, c)
rsplit-join String.[] c h =
    ap rsplit (nil-append ("." <> c) ∙ dot-append c)
    ∙ rsplit-cons "." c
    ∙ ap (cut "." c) (rsplit-dotless c h)
rsplit-join (String.◌∷◌ x m) c h =
    ap rsplit (cons-append x m ("." <> c))
    ∙ rsplit-cons x (m <> ("." <> c))
    ∙ ap (cut x (m <> ("." <> c))) (rsplit-join m c h)

pub is_parent-join : (name rest : String) → is_parent name (name <> ("." <> rest)) ≡ true
unfolding is_parent
is_parent-join String.[] rest = ap (is_parent "") (nil-append ("." <> rest) ∙ dot-append rest)
is_parent-join (String.◌∷◌ p ps) rest =
    ap (is_parent (String.◌∷◌ p ps)) (cons-append p ps ("." <> rest))
    ∙ rw (beq_self p) (is_parent-join ps rest)

pub is_parent-prefix :
    (name path : String)
    → is_parent name path ≡ true
    → (rest : String) × (path ≡ name <> ("." <> rest))
unfolding is_parent
is_parent-prefix String.[] String.[] h = ground arith
is_parent-prefix String.[] (String.◌∷◌ c s) h = (
  s,
  ap (λ x. String.◌∷◌ x s) ((char_eq.beq_iff c ".").0 h)
      ∙ sym (nil-append ("." <> s) ∙ dot-append s),
)
is_parent-prefix (String.◌∷◌ p ps) String.[] h = ground arith
is_parent-prefix (String.◌∷◌ p ps) (String.◌∷◌ c s) h = elim (Bool-cases (p == c)) [
  | inl e ↦
      let (rest, q) = is_parent-prefix ps s (sym (given e) ∙ h) in
      (
        rest,
        (λ i. String.◌∷◌ (sym ((char_eq.beq_iff p c).0 e) i) (q i))
            ∙ sym (cons-append p ps ("." <> rest)),
      )
  | inr e ↦ absurd (not_given e)
]
  where
    given : (p == c) ≡ true → (if p == c then is_parent ps s else false) ≡ is_parent ps s
    given e = rw e refl

    not_given : (p == c) ≡ false → ⊥
    not_given e = ground (arith, e, h)

-- A text is without a dot, or it has a last one.
abbrev pub Cases : String → Type 0
Cases path =
    (has_dot path ≡ false)
    ⊎ ((m : String) × ((c : String) × ((path ≡ m <> ("." <> c)) × (has_dot c ≡ false))))

pub path-Cases : (path : String) → Cases path
path-Cases String.[] = inl refl
path-Cases (String.◌∷◌ x s) = elim (path-Cases s) [
  | inr (m, (c, (p, d))) ↦
      inr (String.◌∷◌ x m, (c, (ap (String.◌∷◌ x) p ∙ sym (cons-append x m ("." <> c)), d)))
  | inl d ↦ elim (Bool-cases (x == ".")) [
    | inl e ↦ inr (
      "",
      (
        s,
        (
          ap (λ y. String.◌∷◌ y s) ((char_eq.beq_iff x ".").0 e)
              ∙ sym (nil-append ("." <> s) ∙ dot-append s),
          d,
        ),
      ),
    )
    | inr e ↦ inl (rw e d)
  ]
]
