-- ===== src/Smpp/Reports/Parsing.antt =====
-- What the default expression of `DeliveryReportProcesser`
-- (src/vumi2/transports/smpp/processors.py) reads out of reports.
pub mod Repeats
unfoldable pub use Repeats.*
use Prim.Native.String.{count}
use text.Mathlib.TextLemmas.{cons-append, nil-append, length-cons, length-nil}
use vumi.Prelude.{
  ℕ, zero, suc, ◌-◌, ◌≤◌, String, ◌<>◌, Char, Bool, true, false, ◌&&◌, ◌==◌, Option, none, some, [],
  ◌∷◌, string_eq, char_eq, Bool-cases, inl, inr, if◌then◌else◌, ◌≡◌, refl, sym, ap, ◌∙◌, fun_ext,
  arith,
}
use vumi.Prelude.Dict
use vumi.Smpp.Reports.Regex.{
  Groups, first_of_two, more_allowed, one_less, take_class, strip, match, capital, no_space,
  no_newline, id_and_stat, match_default, default_regex, labelled, repeat, literal, then_, space,
  any_t, digit, go_on, Regex,
}

-- What a report may say beside its id and its state.
pub record Optional : Type 0 where
  pub sub : Option String
  pub dlvrd : Option String
  pub submit_date : Option String
  pub done_date : Option String
  pub err : Option String

-- A report as SMPP writes it, with one space between its fields, by an operation that puts one
-- text behind the other.
module _ (join : String → String → String) where
  abbrev part : (label : String) → Option String → (rest : String) → String
  part label none rest = rest
  part label (some v) rest = join label (join v (join " " rest))

  abbrev report_by : Optional → (id stat text : String) → String
  report_by o id stat text = join "id:" (
      join id (
        join " " (
          part "sub:" o.sub (
            part "dlvrd:" o.dlvrd (
              part "submit date:" o.submit_date (
                part "done date:" o.done_date (
                  join "stat:" (join stat (join " " (part "err:" o.err (join "text:" text)))))))))))

abbrev pub report : Optional → (id stat text : String) → String
report = report_by ◌<>◌

-- The value of a field that is there consists of characters of its class.
abbrev pub IsPart : (Char → Bool) → (least : ℕ) → Option String → Type 0
IsPart class least none = Unit
IsPart class least (some v) = (all_in class v ≡ true) × (least ≤ count v)

abbrev pub IsOptional : Optional → Type 0
IsOptional o =
    IsPart no_space 1 o.sub
    × IsPart no_space 1 o.dlvrd
    × IsPart digit 0 o.submit_date
    × IsPart digit 0 o.done_date
    × IsPart no_space 1 o.err

module _ (id stat : String) where
  -- No field `label` is before `rest`.
  abbrev Blocked : (label name : String) → (Char → Bool) → (least : ℕ) → (rest : String) → Type 0
  Blocked label name class least rest =
      (g : Groups) (next : String → Groups → Option Groups)
      → match
          (then_ (repeat none space 1 none)
            (then_ (literal label) (repeat (some name) class least none)))
          (String.◌∷◌ " " rest) g next
        ≡ none

  Blocked-part :
      (label name : String) (class : Char → Bool) (least : ℕ) (other : String) (o : Option String)
      (rest : String)
      → ((t : String) → Blocked label name class least (behind other t))
      → Blocked label name class least rest
      → Blocked label name class least (part behind other o rest)
  Blocked-part label name class least other none rest b h = h
  Blocked-part label name class least other (some v) rest b h = b (behind v (String.◌∷◌ " " rest))

  -- The groups of the id and the state.
  abbrev Keeps : (g g' : Groups) → Type 0
  Keeps g g' =
      (Dict.lookup "id" g' ≡ Dict.lookup "id" g) × (Dict.lookup "stat" g' ≡ Dict.lookup "stat" g)

  -- An optional field is read if it is there, and passed over if it is not.
  labelled-Reads :
      (d : Char) (l name : String) (class : Char → Bool) (least : ℕ) (o : Option String)
      (rest : String) (g : Groups) (next : String → Groups → Option Groups)
      → space d ≡ false
      → class " " ≡ false
      → IsPart class least o
      → Blocked (String.◌∷◌ d l) name class least rest
      → ((v : String) → Keeps g ((name, v) ∷ g))
      → ((g' : Groups) → Keeps g g' → Reads id stat (next (String.◌∷◌ " " rest) g'))
      → Reads id stat (
          match
            (labelled (String.◌∷◌ d l) name class least)
            (String.◌∷◌ " " (part behind (String.◌∷◌ d l) o rest))
            g
            next)
  unfolding match take_class strip
  labelled-Reads d l name class least none rest g next sp out v b k h =
      rw (b g next) (h g (refl, refl))
  labelled-Reads d l name class least (some v) rest g next sp out (a, lo) b k h =
      let label = String.◌∷◌ d l in
      let value = behind v (String.◌∷◌ " " rest) in
      let kept : String → String → Option Groups = λ t r. next r ((name, t) ∷ g) in
      let taken : String → Option Groups = λ r. take_class class least none r kept in
      Reads-first id stat _ (next (String.◌∷◌ " " (behind label value)) g) (
        one_space id stat d (behind l value) (λ t r. go_on taken (strip label r)) sp
          (Reads-go_on id stat taken (strip label (behind label value)) value
            (strip-behind label value)
            (take_class-all id stat class least none v " " rest kept a out lo tt
              (h ((name, v) ∷ g) (k v)))))

  -- The ends of the default expression, from its last part on.
  abbrev text_of : Regex
  text_of = then_ (repeat none space 1 none) (
      then_ (repeat none any_t 1 (some 1)) (
        then_ (literal "ext:")
          (then_ (repeat (some "text") no_newline 0 (some 20)) (repeat none no_newline 0 none))))

  abbrev err_of : Regex
  err_of = then_ (labelled "err:" "err" no_space 1) text_of

  abbrev state_of : Regex
  state_of =
      then_ (repeat none space 1 none)
        (then_ (literal "stat:") (then_ (repeat (some "stat") capital 5 (some 7)) err_of))

  abbrev done_of : Regex
  done_of = then_ (labelled "done date:" "done_date" digit 0) state_of

  abbrev submit_of : Regex
  submit_of = then_ (labelled "submit date:" "submit_date" digit 0) done_of

  abbrev dlvrd_of : Regex
  dlvrd_of = then_ (labelled "dlvrd:" "dlvrd" no_space 1) submit_of

  abbrev sub_of : Regex
  sub_of = then_ (labelled "sub:" "sub" no_space 1) dlvrd_of

  abbrev ends_with : Regex → String → Groups → Option Groups
  ends_with r s g = match r s g (λ s' g'. some g')

  text-Reads :
      (t : String) (g : Groups)
      → Dict.lookup "id" g ≡ some id
      → Dict.lookup "stat" g ≡ some stat
      → Reads id stat (some (("text", t) ∷ g))
  unfolding Dict.lookup
  text-Reads t g i s = record { is_read = rw (i, s) refl }

  err-Reads :
      (err : Option String) (text : String) (g : Groups)
      → IsPart no_space 1 err
      → Dict.lookup "id" g ≡ some id
      → Dict.lookup "stat" g ≡ some stat
      → Reads id stat
          (ends_with err_of (String.◌∷◌ " " (part behind "err:" err (behind "text:" text))) g)
  unfolding match take_class strip Dict.lookup
  err-Reads err text g e i s =
      labelled-Reads "e" "rr:" "err" no_space 1 err (behind "text:" text) g (ends_with text_of) refl
        refl e (λ g' next. refl) (λ v. (refl, refl))
        (λ g' (i', s'). Reads-first id stat _ none (
          Reads-first id stat _ none (
            take_class_any id stat no_newline (some 20) text _ (λ t r.
              take_class_any id stat no_newline none r _
                (λ t' r'. text-Reads t g' (i' ∙ i) (s' ∙ s))))))

  state-Reads :
      (err : Option String) (text : String) (g : Groups)
      → IsPart no_space 1 err
      → Dict.lookup "id" g ≡ some id
      → all_in capital stat ≡ true
      → 5 ≤ count stat
      → count stat ≤ 7
      → Reads id stat (
          ends_with state_of
            (String.◌∷◌ " " (
              behind "stat:"
                (behind stat (String.◌∷◌ " " (part behind "err:" err (behind "text:" text))))))
            g)
  unfolding match take_class strip Dict.lookup
  state-Reads err text g e i a lo hi = Reads-first id stat _ none (
      take_class-all id stat capital 5 (some 7) stat " "
        (part behind "err:" err (behind "text:" text)) (λ t r. ends_with err_of r (("stat", t) ∷ g))
        a refl lo hi (err-Reads err text (("stat", stat) ∷ g) e i refl))

  report-Reads :
      (o : Optional) (text : String)
      → IsOptional o
      → all_in no_space id ≡ true
      → count id ≤ 65
      → all_in capital stat ≡ true
      → 5 ≤ count stat
      → count stat ≤ 7
      → Reads id stat (match default_regex (report_by behind o id stat text) [] (λ r g. some g))
  unfolding match take_class strip Dict.lookup
  report-Reads o text (sub, dlvrd, submit, done, err) i short s lo hi =
      let state =
        behind "stat:"
          (behind stat (String.◌∷◌ " " (part behind "err:" o.err (behind "text:" text)))) in
      let from_done = part behind "done date:" o.done_date state in
      let from_submit = part behind "submit date:" o.submit_date from_done in
      let from_dlvrd = part behind "dlvrd:" o.dlvrd from_submit in
      let from_sub = part behind "sub:" o.sub from_dlvrd in
      take_class-all id stat no_space 0 (some 65) id " " from_sub
        (λ t r. ends_with sub_of r (("id", t) ∷ [])) i refl (omega arith) short
        (labelled-Reads "s" "ub:" "sub" no_space 1 o.sub from_dlvrd (("id", id) ∷ [])
          (ends_with dlvrd_of) refl refl sub
          (Blocked-part "sub:" "sub" no_space 1 "dlvrd:" o.dlvrd from_submit (λ t g next. refl)
            (Blocked-part "sub:" "sub" no_space 1 "submit date:" o.submit_date from_done
              (λ t g next. refl)
              (Blocked-part "sub:" "sub" no_space 1 "done date:" o.done_date state
                (λ t g next. refl) (λ g next. refl))))
          (λ v. (refl, refl))
          (λ g₁ (i₁, s₁).
            labelled-Reads "d" "lvrd:" "dlvrd" no_space 1 o.dlvrd from_submit g₁
              (ends_with submit_of) refl refl dlvrd
              (Blocked-part "dlvrd:" "dlvrd" no_space 1 "submit date:" o.submit_date from_done
                (λ t g next. refl)
                (Blocked-part "dlvrd:" "dlvrd" no_space 1 "done date:" o.done_date state
                  (λ t g next. refl) (λ g next. refl)))
              (λ v. (refl, refl))
              (λ g₂ (i₂, s₂).
                labelled-Reads "s" "ubmit date:" "submit_date" digit 0 o.submit_date from_done g₂
                  (ends_with done_of) refl refl submit
                  (Blocked-part "submit date:" "submit_date" digit 0 "done date:" o.done_date state
                    (λ t g next. refl) (λ g next. refl))
                  (λ v. (refl, refl))
                  (λ g₃ (i₃, s₃).
                    labelled-Reads "d" "one date:" "done_date" digit 0 o.done_date state g₃
                      (ends_with state_of) refl refl done (λ g next. refl) (λ v. (refl, refl))
                      (λ g₄ (i₄, s₄).
                        state-Reads o.err text g₄ err (i₄ ∙ (i₃ ∙ (i₂ ∙ i₁))) s lo hi)))))

-- A report as SMPP writes it, with any of the optional fields, is read: an id of at most 65
-- characters with no space among them, and a state of five to seven capitals, as they stand,
-- whatever the text is. The optional fields consist of characters of their classes.
pub match_default-report :
    (o : Optional) (id stat text : String)
    → IsOptional o
    → all_in no_space id ≡ true
    → count id ≤ 65
    → all_in capital stat ≡ true
    → 5 ≤ count stat
    → count stat ≤ 7
    → match_default (report o id stat text) ≡ some (id, stat)
unfolding match_default
match_default-report o id stat text parts i short s lo hi =
    let read = report-Reads id stat o text parts i short s lo hi in
    ap (λ join. match_default (report_by join o id stat text)) (sym joins) ∙ read.is_read
  where
    joins : behind ≡ ◌<>◌
    joins = fun_ext (λ s. fun_ext (λ t. behind-append s t))
