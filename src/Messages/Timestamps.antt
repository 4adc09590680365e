-- ===== src/Messages/Timestamps.antt =====
-- The timestamps of src/vumi2/messages.py as texts. `strptime` and `strftime` with the format
-- `VUMI_DATE_FORMAT`, in UTC, are arguments.
use Prim.Native.String.{count}
use text.Mathlib.TextLemmas.{cons-append, nil-append, length-append, length-cons, length-nil}
use vumi.Prelude.{
  ℕ, zero, suc, ◌-◌, ◌≤◌, String, ◌<>◌, Char, Bool, true, false, ◌==◌, string_eq, char_eq, Result,
  ok, ◌≡◌, refl, sym, ap, ◌∙◌, if◌then◌else◌, arith, beq_self,
}

-- `text.endswith(c)`, of a character.
unfoldable pub ends_with : Char → String → Bool
ends_with k String.[] = false
ends_with k (String.◌∷◌ c String.[]) = c == k
ends_with k (String.◌∷◌ c (String.◌∷◌ d s)) = ends_with k (String.◌∷◌ d s)

-- `text[:-1]`
unfoldable pub drop_last : String → String
drop_last String.[] = ""
drop_last (String.◌∷◌ c String.[]) = ""
drop_last (String.◌∷◌ c (String.◌∷◌ d s)) = String.◌∷◌ c (drop_last (String.◌∷◌ d s))

-- `text[n:]`
unfoldable pub drop_chars : ℕ → String → String
drop_chars zero s = s
drop_chars (suc n) String.[] = ""
drop_chars (suc n) (String.◌∷◌ c s) = drop_chars n s

-- `text[-n:]`
unfoldable pub last_chars : ℕ → String → String
unfolding drop_chars
last_chars n s = drop_chars (count s - n) s

-- `c in text`, of a character.
unfoldable pub has_char : Char → String → Bool
has_char k String.[] = false
has_char k (String.◌∷◌ c s) = let rest = has_char k s in if c == k then true else rest

module _ {Datetime : Type 0} (strptime : String → Result Datetime)
    (strftime : Datetime → String) where
  -- `if "." not in value[-10:]: value = f"{value}.0"`
  unfoldable pub with_fraction : String → String
  unfolding last_chars has_char
  with_fraction value = if has_char "." (last_chars 10 value) then value else value <> ".0"

  unfoldable pub deserialise_vumi_timestamp : (value : String) → Result Datetime
  unfolding with_fraction ends_with drop_last
  deserialise_vumi_timestamp value =
      strptime (with_fraction (if ends_with "Z" value then drop_last value else value))

  abbrev pub serialise_vumi_timestamp : Datetime → String
  serialise_vumi_timestamp value = strftime value

ends_with-append : (k : Char) (s : String) → ends_with k (s <> String.◌∷◌ k "") ≡ true
unfolding ends_with
ends_with-append k String.[] = ap (ends_with k) (nil-append (String.◌∷◌ k "")) ∙ beq_self k
ends_with-append k (String.◌∷◌ c String.[]) =
    ap (ends_with k)
      (cons-append c "" (String.◌∷◌ k "") ∙ ap (String.◌∷◌ c) (nil-append (String.◌∷◌ k "")))
    ∙ beq_self k
ends_with-append k (String.◌∷◌ c (String.◌∷◌ d s)) =
    ap (ends_with k) (
      cons-append c (String.◌∷◌ d s) (String.◌∷◌ k "")
      ∙ ap (String.◌∷◌ c) (cons-append d s (String.◌∷◌ k "")))
    ∙ (ap (ends_with k) (sym (cons-append d s (String.◌∷◌ k "")))
        ∙ ends_with-append k (String.◌∷◌ d s))

drop_last-append : (k : Char) (s : String) → drop_last (s <> String.◌∷◌ k "") ≡ s
unfolding drop_last
drop_last-append k String.[] = ap drop_last (nil-append (String.◌∷◌ k ""))
drop_last-append k (String.◌∷◌ c String.[]) =
    ap drop_last
      (cons-append c "" (String.◌∷◌ k "") ∙ ap (String.◌∷◌ c) (nil-append (String.◌∷◌ k "")))
drop_last-append k (String.◌∷◌ c (String.◌∷◌ d s)) =
    ap drop_last (
      cons-append c (String.◌∷◌ d s) (String.◌∷◌ k "")
      ∙ ap (String.◌∷◌ c) (cons-append d s (String.◌∷◌ k "")))
    ∙ ap (String.◌∷◌ c) (
        ap drop_last (sym (cons-append d s (String.◌∷◌ k "")))
        ∙ drop_last-append k (String.◌∷◌ d s))

drop_chars-append :
    (n : ℕ) (p t : String) → n ≤ count p → drop_chars n (p <> t) ≡ drop_chars n p <> t
unfolding drop_chars
drop_chars-append zero p t h = refl
drop_chars-append (suc n) String.[] t h = absurd (omega (arith, length-nil))
drop_chars-append (suc n) (String.◌∷◌ c p) t h =
    ap (drop_chars (suc n)) (cons-append c p t)
    ∙ drop_chars-append n p t (omega (arith, length-cons c p))

has_char-append : (k : Char) (p t : String) → has_char k (p <> String.◌∷◌ k t) ≡ true
unfolding has_char
has_char-append k String.[] t = ap (has_char k) (nil-append (String.◌∷◌ k t)) ∙ rw (beq_self k) refl
has_char-append k (String.◌∷◌ c p) t =
    ap (has_char k) (cons-append c p (String.◌∷◌ k t)) ∙ rw (has_char-append k p t) (ground arith)

last_chars-dot :
    (p f : String) → count f ≤ 9 → has_char "." (last_chars 10 (p <> String.◌∷◌ "." f)) ≡ true
unfolding last_chars
last_chars-dot p f h =
    let n = count (p <> String.◌∷◌ "." f) - 10 in
    ap (has_char ".") (
      drop_chars-append n p (String.◌∷◌ "." f)
        (omega (arith, length-append p (String.◌∷◌ "." f), length-cons "." f, h)))
    ∙ has_char-append "." (drop_chars n p) f

module _ {Datetime : Type 0} (strptime : String → Result Datetime)
    (strftime : Datetime → String) where
  with_fraction_full :
      (s p f : String)
      → s ≡ p <> String.◌∷◌ "." f
      → count f ≤ 9
      → with_fraction strptime strftime s ≡ s
  unfolding with_fraction
  with_fraction_full s p f e h =
      let dot : has_char "." (last_chars 10 s) ≡ true =
        ap (λ t. has_char "." (last_chars 10 t)) e ∙ last_chars-dot p f h in
      rw dot refl

  -- A timestamp that is written with at most nine digits behind the dot, that does not end in `Z`
  -- and that `strptime` reads back, is read back from `serialise_vumi_timestamp`, and also where
  -- another system has put a `Z` behind it.
  pub deserialise_vumi_timestamp-serialise_vumi_timestamp :
      (value : Datetime) (before fraction : String)
      → strftime value ≡ before <> ("." <> fraction)
      → count fraction ≤ 9
      → ends_with "Z" (strftime value) ≡ false
      → strptime (strftime value) ≡ ok value
      → (deserialise_vumi_timestamp strptime strftime
            (serialise_vumi_timestamp strptime strftime value)
          ≡ ok value)
        × (deserialise_vumi_timestamp strptime strftime
              (serialise_vumi_timestamp strptime strftime value <> "Z")
            ≡ ok value)
  unfolding deserialise_vumi_timestamp
  deserialise_vumi_timestamp-serialise_vumi_timestamp value p f e h no_z read = (
    rw (no_z, deserialise_vumi_timestamp) (ap strptime full ∙ read),
    rw
        (
          ends_with-append "Z" (strftime value),
          deserialise_vumi_timestamp,
          drop_last-append "Z" (strftime value),
        )
        (ap strptime full ∙ read),
  )
    where
      full : with_fraction strptime strftime (strftime value) ≡ strftime value
      full =
          with_fraction_full (strftime value) p f
            (e ∙ ap (λ t. p <> t) (cons-append "." "" f ∙ ap (String.◌∷◌ ".") (nil-append f))) h
