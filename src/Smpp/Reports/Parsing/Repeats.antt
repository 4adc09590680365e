-- ===== src/Smpp/Reports/Parsing/Repeats.antt =====
-- Repetitions and texts in the matches of `DELIVERY_REPORT_REGEX`
-- (src/vumi2/transports/smpp/processors.py).
use Prim.Native.String.{count}
use text.Mathlib.TextLemmas.{cons-append, nil-append, length-cons, length-nil}
use vumi.Prelude.{
  ℕ, zero, suc, ◌-◌, ◌≤◌, String, ◌<>◌, Char, Bool, true, false, ◌&&◌, ◌==◌, Option, none, some,
  string_eq, char_eq, Bool-cases, inl, inr, if◌then◌else◌, ◌≡◌, refl, sym, ap, ◌∙◌, arith,
}
use vumi.Smpp.Reports.Regex.{
  Groups, first_of_two, more_allowed, one_less, take_class, strip, id_and_stat, space, go_on,
}

-- `text` behind `before`, character by character.
abbrev pub behind : (before text : String) → String
behind String.[] text = text
behind (String.◌∷◌ c s) text = String.◌∷◌ c (behind s text)

pub behind-append : (s t : String) → behind s t ≡ s <> t
behind-append String.[] t = sym (nil-append t)
behind-append (String.◌∷◌ c s) t = ap (String.◌∷◌ c) (behind-append s t) ∙ sym (cons-append c s t)

abbrev pub all_in : (Char → Bool) → String → Bool
all_in class String.[] = true
all_in class (String.◌∷◌ c s) = let rest = all_in class s in if class c then rest else false

abbrev pub Fits : ℕ → Option ℕ → Type 0
Fits n none = Unit
Fits n (some m) = n ≤ m

pub strip-behind : (s t : String) → strip s (behind s t) ≡ some t
unfolding strip
strip-behind String.[] t = refl
strip-behind (String.◌∷◌ c s) t =
    let same : (c == c) ≡ true = (char_eq.beq_iff c c).1 refl in rw same (strip-behind s t)

module _ (id stat : String) where
  -- A match with this id and this state.
  pub record Reads (o : Option Groups) : Type 0 where
    pub is_read : id_and_stat o ≡ some (id, stat)

  pub Reads-first : (x y : Option Groups) → Reads x → Reads (first_of_two x y)
  Reads-first none y h = let e = h.is_read in absurd (cc)
  Reads-first (some g) y h = h

  pub Reads-go_on :
      (next : String → Option Groups) (o : Option String) (t : String)
      → o ≡ some t
      → Reads (next t)
      → Reads (go_on next o)
  Reads-go_on next o t e h = rw e h

  -- A repetition takes the whole of a text that is in the class and before a character that is
  -- not, if what follows matches there.
  pub take_class-all :
      (class : Char → Bool) (least : ℕ) (most : Option ℕ) (s : String) (c : Char) (rest : String)
      (next : String → String → Option Groups)
      → all_in class s ≡ true
      → class c ≡ false
      → least ≤ count s
      → Fits (count s) most
      → Reads (next s (String.◌∷◌ c rest))
      → Reads (take_class class least most (behind s (String.◌∷◌ c rest)) next)
  unfolding take_class
  take_class-all class zero none String.[] c rest next a n lo hi h = rw n h
  take_class-all class zero (some zero) String.[] c rest next a n lo hi h = h
  take_class-all class zero (some (suc m)) String.[] c rest next a n lo hi h = rw n h
  take_class-all class (suc l) most String.[] c rest next a n lo hi h =
      absurd (omega (arith, length-nil))
  take_class-all class l (some zero) (String.◌∷◌ d s) c rest next a n lo hi h =
      absurd (omega (arith, length-cons d s))
  take_class-all class l none (String.◌∷◌ d s) c rest next a n lo hi h =
      let in_class : class d ≡ true = ground (arith, a) in
      let others : all_in class s ≡ true = ground (arith, a) in
      rw in_class (
        Reads-first _ _ (
          take_class-all class (l - 1) none s c rest (λ t r. next (String.◌∷◌ d t) r) others n
            (omega (arith, length-cons d s)) tt h))
  take_class-all class l (some (suc m)) (String.◌∷◌ d s) c rest next a n lo hi h =
      let in_class : class d ≡ true = ground (arith, a) in
      let others : all_in class s ≡ true = ground (arith, a) in
      rw in_class (
        Reads-first _ _ (
          take_class-all class (l - 1) (some m) s c rest (λ t r. next (String.◌∷◌ d t) r) others n
            (omega (arith, length-cons d s)) (omega (arith, length-cons d s)) h))

  -- One space before a character that is none.
  pub one_space :
      (d : Char) (l : String) (next : String → String → Option Groups)
      → space d ≡ false
      → Reads (next " " (String.◌∷◌ d l))
      → Reads (take_class space 1 none (String.◌∷◌ " " (String.◌∷◌ d l)) next)
  unfolding take_class
  one_space d l next sp h = rw sp (Reads-first (next " " (String.◌∷◌ d l)) none h)

  -- A repetition that may take nothing matches if what follows always does.
  pub take_class_any :
      (class : Char → Bool) (most : Option ℕ) (s : String) (next : String → String → Option Groups)
      → ((t r : String) → Reads (next t r))
      → Reads (take_class class 0 most s next)
  unfolding take_class
  take_class_any class most String.[] next q = q "" ""
  take_class_any class most (String.◌∷◌ c s) next q =
      elim (Bool-cases (more_allowed most && class c)) [
        | inl e ↦ rw e (
            Reads-first _ _ (
              take_class_any class (one_less most) s (λ t r. next (String.◌∷◌ c t) r)
                (λ t r. q (String.◌∷◌ c t) r)))
        | inr e ↦ rw e (q "" (String.◌∷◌ c s))
      ]
