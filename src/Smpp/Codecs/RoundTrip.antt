-- ===== src/Smpp/Codecs/RoundTrip.antt =====
-- Decoding an encoded text (src/vumi2/transports/smpp/codecs.py).

use Prim.Native.String.append
use mathlib.Core.Path.{subst}
use vumi.Prelude.{
  ℕ, suc, ◌+◌, ◌-◌, ◌≤◌, ◌≡◌, ◌≢◌, refl, ◌∙◌, Char, String, some, List, [], ◌∷◌, ◌++◌, Result, ok,
  ◌>>=◌, >>=-eq-ok, ◌=?◌, char_eq, false, inl, inr, Option-cases, arith,
}
use vumi.Smpp.Codecs.{
  charset, charset_extension, escape, index_from, char_at, Errors, strict, encode_char, encode_from,
  encode, decode_from, decode,
}

-- The index of a character is a place where it stands.
char_at-index_from :
    (i : ℕ) (s : String) (c : Char) (j : ℕ)
    → index_from i s c ≡ some j
    → (i ≤ j) × (char_at s (j - i) ≡ some c)
unfolding index_from char_at
char_at-index_from i String.[] c j h = cc
char_at-index_from i (String.◌∷◌ d s) c j h = elim (Option-cases (index_from (i + 1) s c)) [
  | inl e ↦ ground (arith, char_eq.beq_iff d c)
  | inr (k, e) ↦
      let (le, at) = char_at-index_from (i + 1) s c k e in
      let step : k - i ≡ suc (k - (i + 1)) = omega arith in ground (arith, step, at)
]

char_at-index : (s : String) (c : Char) (j : ℕ) → index_from 0 s c ≡ some j → char_at s j ≡ some c
char_at-index s c j h =
    let same : j - 0 ≡ j = omega arith in rw same at ((char_at-index_from 0 s c j h).1)

decode_nil : (e : Errors) (q : ℕ) → decode_from e q [] ≡ ok ""
unfolding decode_from
decode_nil e q = refl

-- No character of the text is the escape character itself.
abbrev pub NoEscape : String → Type 0
NoEscape String.[] = Unit
NoEscape (String.◌∷◌ c s) = (c ≢ "\u{1b}") × NoEscape s

charset_at_escape : char_at charset escape ≡ some "\u{1b}"
unfolding char_at
charset_at_escape = refl

not_escape : (b : ℕ) → b ≢ escape → (b =? escape) ≡ false
not_escape b n = ground arith

-- The round of `decode` that reads one character.
decode_plain :
    (e : Errors) (q b : ℕ) (c : Char) (rest : List ℕ)
    → b ≢ escape
    → char_at charset b ≡ some c
    → decode_from e q (b ∷ rest) ≡ (decode_from e (q + 1) rest >>= λ more. ok (String.◌∷◌ c more))
unfolding decode_from
decode_plain e q b c [] n h = rw (not_escape b n, h) refl
decode_plain e q b c (d ∷ rest) n h =
    rw (not_escape b n, decode_from) (rw h (simp (append.cons, append.nil)))

decode_escaped :
    (e : Errors) (q b : ℕ) (c : Char) (rest : List ℕ)
    → char_at charset_extension b ≡ some c
    → decode_from e q (escape ∷ b ∷ rest)
      ≡ (decode_from e (q + 1) rest >>= λ more. ok (String.◌∷◌ c more))
unfolding decode_from
decode_escaped e q b c rest h = rw h (simp (append.cons, append.nil))

plain_ne_escape : (b : ℕ) (c : Char) → c ≢ "\u{1b}" → char_at charset b ≡ some c → b ≢ escape
plain_ne_escape b c n h e = n (cc charset_at_escape)

-- What `encode` appends for a character is read back as that character.
pub decode_char_bytes :
    (e : Errors) (p q : ℕ) (c : Char) (rest : List ℕ) {bytes : List ℕ}
    → c ≢ "\u{1b}"
    → encode_char strict p c ≡ ok bytes
    → decode_from e q (bytes ++ rest)
      ≡ (decode_from e (q + 1) rest >>= λ more. ok (String.◌∷◌ c more))
unfolding encode_char
decode_char_bytes e p q c rest {bytes} n h = elim (Option-cases (index_from 0 charset c)) [
  | inl none_plain ↦ elim (Option-cases (index_from 0 charset_extension c)) [
    | inl none_escaped ↦ absurd (ground arith)
    | inr (b, at) ↦
        let same : escape ∷ b ∷ [] ≡ bytes = ground arith in
        subst (λ (l : List ℕ). decode_from e q (l ++ rest) ≡ goal) same
          (decode_escaped e q b c rest (char_at-index charset_extension c b at))
  ]
  | inr (b, at) ↦
      let same : b ∷ [] ≡ bytes = ground arith in
      subst (λ (l : List ℕ). decode_from e q (l ++ rest) ≡ goal) same
        (decode_plain e q b c rest (plain_ne_escape b c n (char_at-index charset c b at))
          (char_at-index charset c b at))
]
  where
    goal : Result String
    goal = decode_from e (q + 1) rest >>= λ more. ok (String.◌∷◌ c more)

decode_encoded :
    (e : Errors) (p q : ℕ) (s : String) {bytes : List ℕ}
    → NoEscape s
    → encode_from strict p s ≡ ok bytes
    → decode_from e q bytes ≡ ok s
unfolding encode_from
decode_encoded e p q String.[] {bytes} free h =
    let empty : [] ≡ bytes = cc in
    subst (λ (l : List ℕ). decode_from e q l ≡ ok "") empty (decode_nil e q)
decode_encoded e p q (String.◌∷◌ c s) free h =
    let (bytes, first, h') = >>=-eq-ok (encode_char strict p c) _ h in
    let (rest, later, h'') = >>=-eq-ok (encode_from strict (p + 1) s) _ h' in
    subst (λ (l : List ℕ). decode_from e q l ≡ ok (String.◌∷◌ c s)) (cc)
      (decode_char_bytes e p q c rest free.0 first
        ∙ rw (decode_encoded e (p + 1) (q + 1) s free.1 later))

-- A text without the escape character that the strict mode of `encode` accepts is read back by
-- `decode`, in every mode.
pub decode-encode :
    (e : Errors) (s : String) {bytes : List ℕ}
    → NoEscape s
    → encode strict s ≡ ok bytes
    → decode e bytes ≡ ok s
unfolding encode decode
decode-encode e s free h = decode_encoded e 0 0 s free h
