-- ===== src/Smpp/Reports/Regex.antt =====
-- `DELIVERY_REPORT_REGEX` of src/vumi2/transports/smpp/processors.py, and what Python's
-- `re.match` does with the constructs in it: every branch is tried in its order, and the first
-- that leads to a match of the whole expression counts.
use vumi.Prelude.{
  ℕ, zero, suc, ◌-◌, String, Char, code, Bool, true, false, not, ◌&&◌, ◌||◌, Option, none, some,
  List, [], ◌∷◌, ◌==◌, string_eq, char_eq, ◌=?◌, leb, if◌then◌else◌,
}
use vumi.Prelude.Dict

-- A class of characters `{least, most}` times, kept as the group `name` if it has one, or a text;
-- one expression behind another, and `(?:…)?`.
pub data Regex : Type 0 where
  repeat : (name : Option String) → (class : Char → Bool) → (least : ℕ) → (most : Option ℕ) → Regex
  literal : String → Regex
  then_ : Regex → Regex → Regex
  optional : Regex → Regex

abbrev pub Groups : Type 0
Groups = List (String × String)

abbrev pub first_of_two : Option Groups → Option Groups → Option Groups
first_of_two none later = later
first_of_two (some g) later = some g

abbrev pub more_allowed : Option ℕ → Bool
more_allowed none = true
more_allowed (some zero) = false
more_allowed (some (suc n)) = true

abbrev pub one_less : Option ℕ → Option ℕ
one_less none = none
one_less (some zero) = some zero
one_less (some (suc n)) = some n

-- A repetition takes as many characters as it can, and gives them back one by one. `next` is the
-- rest of the match, for the text that is taken and what is left.
unfoldable pub take_class :
    (Char → Bool)
    → (least : ℕ) → (most : Option ℕ) → String
    → (next : String → String → Option Groups) → Option Groups
take_class class least most String.[] next = if least =? 0 then next "" "" else none
take_class class least most (String.◌∷◌ c s) next =
    let more = take_class class (least - 1) (one_less most) s (λ t r. next (String.◌∷◌ c t) r) in
    first_of_two (if more_allowed most && class c then more else none)
      (if least =? 0 then next "" (String.◌∷◌ c s) else none)

-- What is left behind a text.
unfoldable pub strip : (prefix text : String) → Option String
strip String.[] s = some s
strip (String.◌∷◌ p ps) String.[] = none
strip (String.◌∷◌ p ps) (String.◌∷◌ c s) = let rest = strip ps s in if p == c then rest else none

abbrev pub keep : Option String → String → Groups → Groups
keep none t g = g
keep (some name) t g = (name, t) ∷ g

abbrev pub go_on : (String → Option Groups) → Option String → Option Groups
go_on next none = none
go_on next (some r) = next r

unfoldable pub match :
    Regex → String → Groups → (next : String → Groups → Option Groups) → Option Groups
unfolding take_class strip
match (repeat name class least most) s g next =
    take_class class least most s (λ t r. next r (keep name t g))
match (literal l) s g next = go_on (λ r. next r g) (strip l s)
match (then_ a b) s g next = match a s g (λ r g'. match b r g' next)
match (optional a) s g next = first_of_two (match a s g next) (next s g)

-- The classes `[^ ]`, ` `, `\d`, `[A-Z]`, `[Tt]` and `.`, on the characters of Latin-1.
abbrev pub no_space : Char → Bool
no_space c = not (c == " ")

abbrev pub space : Char → Bool
space c = c == " "

abbrev pub digit : Char → Bool
digit c = leb 48 (code c) && leb (code c) 57

abbrev pub capital : Char → Bool
capital c = leb 65 (code c) && leb (code c) 90

abbrev pub any_t : Char → Bool
any_t c = c == "T" || c == "t"

abbrev pub no_newline : Char → Bool
no_newline c = not (c == "\n")

-- `(?: +label:(?P<name>…))?`
abbrev pub labelled : (label name : String) → (Char → Bool) → (least : ℕ) → Regex
labelled label name class least =
    optional (
      then_ (repeat none space 1 none)
        (then_ (literal label) (repeat (some name) class least none)))

abbrev pub default_regex : Regex
default_regex = then_ (literal "id:") (
    then_ (repeat (some "id") no_space 0 (some 65)) (
      then_ (labelled "sub:" "sub" no_space 1) (
        then_ (labelled "dlvrd:" "dlvrd" no_space 1) (
          then_ (labelled "submit date:" "submit_date" digit 0) (
            then_ (labelled "done date:" "done_date" digit 0) (
              then_ (repeat none space 1 none) (
                then_ (literal "stat:") (
                  then_ (repeat (some "stat") capital 5 (some 7)) (
                    then_ (labelled "err:" "err" no_space 1) (
                      then_ (repeat none space 1 none) (
                        then_ (repeat none any_t 1 (some 1)) (
                          then_ (literal "ext:") (
                            then_ (repeat (some "text") no_newline 0 (some 20))
                              (repeat none no_newline 0 none))))))))))))))

-- The groups `id` and `stat` of `match.groupdict()`.
abbrev pub both : Option String → Option String → Option (String × String)
both (some a) (some b) = some (a, b)
both _ _ = none

abbrev pub id_and_stat : Option Groups → Option (String × String)
id_and_stat none = none
id_and_stat (some g) = both (Dict.lookup "id" g) (Dict.lookup "stat" g)

-- `re.compile(DELIVERY_REPORT_REGEX).match(content)`
unfoldable pub match_default : (content : String) → Option (String × String)
unfolding match Dict.lookup
match_default content = id_and_stat (match default_regex content [] (λ r g. some g))
