-- ===== src/Smpp/Codecs/Failures.antt =====
-- The `errors` argument of the codec, and what it does not cover
-- (src/vumi2/transports/smpp/codecs.py).

use mathlib.Core.List.{append_assoc}
use mathlib.Core.Path.{subst}
use vumi.Prelude.{
  ℕ, ◌+◌, ◌≡◌, refl, Char, String, List, [], ◌∷◌, ◌++◌, Result, ok, err, >>=-eq-ok, stop_iteration,
  arith, Option-cases, inl, inr,
}
use vumi.Smpp.Codecs.{
  charset, charset_extension, escape, index_from, Errors, strict, ignore, replace, encode_char,
  unencodable, encode_from, encode, decode_from, decode,
}
use vumi.Smpp.Codecs.RoundTrip.{NoEscape, decode_char_bytes}

encode_char_modes :
    (m : Errors) (p q : ℕ) (c : Char) {bytes : List ℕ}
    → encode_char strict p c ≡ ok bytes
    → encode_char m q c ≡ ok bytes
unfolding encode_char
encode_char_modes m p q c h = ground arith

encode_from_modes :
    (m : Errors) (p q : ℕ) (s : String) {bytes : List ℕ}
    → encode_from strict p s ≡ ok bytes
    → encode_from m q s ≡ ok bytes
unfolding encode_from
encode_from_modes m p q String.[] h = h
encode_from_modes m p q (String.◌∷◌ c s) h =
    let (first, e, h') = >>=-eq-ok (encode_char strict p c) _ h in
    let (rest, f, h'') = >>=-eq-ok (encode_from strict (p + 1) s) _ h' in
    rw (encode_char_modes m p q c e, encode_from_modes m (p + 1) (q + 1) s f) h''

-- A result that is not an exception.
abbrev pub Returns {ℓ} : {A : Type ℓ} → Result A → Type ℓ
Returns {A} r = (a : A) × (r ≡ ok a)

abbrev IsLenient : Errors → Type 0
IsLenient Errors.ignore = Unit
IsLenient Errors.replace = Unit
IsLenient _ = ⊥

encode_char_lenient : (m : Errors) (p : ℕ) (c : Char) → IsLenient m → Returns (encode_char m p c)
unfolding encode_char
encode_char_lenient m p c l = elim (Option-cases (index_from 0 charset c)) [
  | inl e ↦ elim (Option-cases (index_from 0 charset_extension c)) [
    | inl f ↦ rw (e, f, encode_char) (last m l)
    | inr (b, f) ↦ (escape ∷ b ∷ [], rw (e, f, encode_char))
  ]
  | inr (b, e) ↦ (b ∷ [], rw (e, encode_char))
]
  where
    last : (m : Errors) → IsLenient m → Returns (unencodable m p)
    last Errors.ignore l = ([], refl)
    last Errors.replace l = (63 ∷ [], refl)
    last Errors.strict l = absurd l
    last Errors.other l = absurd l

encode_lenient : (m : Errors) (p : ℕ) (s : String) → IsLenient m → Returns (encode_from m p s)
unfolding encode_from
encode_lenient m p String.[] l = ([], refl)
encode_lenient m p (String.◌∷◌ c s) l =
    let (first, e) = encode_char_lenient m p c l in
    let (rest, f) = encode_lenient m (p + 1) s l in (first ++ rest, rw (e, f))

-- A text that the strict mode encodes is encoded alike in every mode, and the modes `ignore` and
-- `replace` encode every text.
pub encode_modes :
    (m : Errors) (s : String)
    → ((bytes : List ℕ) → encode strict s ≡ ok bytes → encode m s ≡ ok bytes)
      × Returns (encode ignore s)
      × Returns (encode replace s)
unfolding encode
encode_modes m s = (
  λ bytes h. encode_from_modes m 0 0 s h,
  encode_lenient ignore 0 s tt,
  encode_lenient replace 0 s tt,
)

decode_lone_escape :
    (e : Errors) (p q : ℕ) (s : String) {bytes : List ℕ}
    → NoEscape s
    → encode_from strict p s ≡ ok bytes
    → decode_from e q (bytes ++ escape ∷ []) ≡ err stop_iteration
unfolding encode_from
decode_lone_escape e p q String.[] {bytes} free h =
    let empty : [] ≡ bytes = cc in
    subst (λ (l : List ℕ). decode_from e q (l ++ escape ∷ []) ≡ err stop_iteration) empty
      (unfold decode_from in refl)
decode_lone_escape e p q (String.◌∷◌ c s) {bytes} free h =
    let (first, a, h') = >>=-eq-ok (encode_char strict p c) _ h in
    let (rest, b, h'') = >>=-eq-ok (encode_from strict (p + 1) s) _ h' in
    let same : first ++ rest ≡ bytes = cc in
    subst (λ (l : List ℕ). decode_from e q (l ++ escape ∷ []) ≡ err stop_iteration) same
      (rw (
        append_assoc first rest (escape ∷ []),
        decode_char_bytes e p q c (rest ++ escape ∷ []) free.0 a,
        decode_lone_escape e (p + 1) (q + 1) s free.1 b,
      ))

-- Bytes that end in an escape byte after the encoding of a text raise `StopIteration`, whatever
-- the `errors` argument says, also `ignore` and `replace`.
pub decode-lone_escape :
    (e : Errors) (s : String) {bytes : List ℕ}
    → NoEscape s
    → encode strict s ≡ ok bytes
    → decode e (bytes ++ escape ∷ []) ≡ err stop_iteration
unfolding encode decode
decode-lone_escape e s free h = decode_lone_escape e 0 0 s free h

-- The grave accent, which GSM 03.38 does not have, is encoded all the same: in front of any text
-- that the strict mode encodes it adds the bytes 27 and 127.
pub encode_grave :
    (s : String) {bytes : List ℕ}
    → encode strict s ≡ ok bytes
    → encode strict (String.◌∷◌ "`" s) ≡ ok (escape ∷ 127 ∷ bytes)
unfolding encode encode_from
encode_grave s h = rw (encode_from_modes strict 0 1 s h)
