-- ===== src/Smpp/Codecs.antt =====
-- `Gsm0338Codec` of src/vumi2/transports/smpp/codecs.py. Text is a `String`, bytes are numbers.
pub mod RoundTrip
pub mod Failures
use Prim.Native.String
use vumi.Prelude.{
  ℕ, zero, suc, ◌+◌, Char, String, Option, none, some, List, [], ◌∷◌, ◌++◌, Result, ok, err, ◌>>=◌,
  unicode_encode_error, unicode_decode_error, vumi_codec_exception, stop_iteration, ◌=?◌, ◌==◌,
  char_eq, true, false, if◌then◌else◌,
}

-- `GSM0338_CHARSET`
abbrev pub charset : String
charset =
    "@£$¥èéùìòÇ\nØø\rÅåΔ_ΦΓΛΩΠΨΣΘΞ\u{1b}ÆæßÉ !\"#¤%&'()*+,-./0123456789:;<=>?¡ABCDEFGHIJKLMNOPQRSTUVWXYZÄÖÑÜ§¿abcdefghijklmnopqrstuvwxyzäöñüà"

-- `GSM0338_CHARSET_EXTENSION`
abbrev pub charset_extension : String
charset_extension =
    "````````````````````^```````````````````{}`````\\````````````[~]`|````````````````````````````````````€``````````````````````````"

-- `GSM0338_CHARSET_EXTENSION_ESCAPE`
abbrev pub escape : ℕ
escape = 27

-- `{c: i for i, c in enumerate(s)}.get(char)`: of two places of a character the later one counts.
unfoldable pub index_from : ℕ → String → Char → Option ℕ
index_from i String.[] c = none
index_from i (String.◌∷◌ d s) c =
    let later = index_from (i + 1) s c in
    elim later [ some j ↦ some j | none ↦ if d == c then some i else none ]

-- `s[i]`, with `none` for an `IndexError`.
unfoldable pub char_at : String → ℕ → Option Char
char_at String.[] i = none
char_at (String.◌∷◌ c s) zero = some c
char_at (String.◌∷◌ c s) (suc i) = char_at s i

-- The argument `errors`.
pub data Errors : Type 0 where
  strict ignore replace other : Errors

-- The tests on `errors` for a character that has no code; 63 is the index of the question mark.
abbrev pub unencodable : Errors → ℕ → Result (List ℕ)
unencodable strict position = err (unicode_encode_error position)
unencodable ignore position = ok []
unencodable replace position = ok (63 ∷ [])
unencodable other position = err vumi_codec_exception

-- What the loop of `encode` appends for one character, or raises.
unfoldable pub encode_char : Errors → ℕ → Char → Result (List ℕ)
unfolding index_from
encode_char errors position ch = elim (index_from 0 charset ch) [
  | some idx ↦ ok (idx ∷ [])
  | none ↦ elim (index_from 0 charset_extension ch) [
    | some idx ↦ ok (escape ∷ idx ∷ [])
    | none ↦ unencodable errors position
  ]
]

-- The loop of `encode`.
unfoldable pub encode_from : Errors → ℕ → String → Result (List ℕ)
unfolding encode_char
encode_from errors position String.[] = ok []
encode_from errors position (String.◌∷◌ ch s) = encode_char errors position ch >>= λ bytes.
    encode_from errors (position + 1) s >>= λ rest. ok (bytes ++ rest)

-- `encode`; the length that it returns beside the bytes is theirs.
unfoldable pub encode : Errors → String → Result (List ℕ)
unfolding encode_from
encode errors input = encode_from errors 0 input

-- One `append` of `decode`, and its `except IndexError`.
unfoldable pub decode_char : Errors → ℕ → Option Char → Result String
decode_char errors position (some c) = ok (String.◌∷◌ c String.[])
decode_char errors position none = elim errors [
  | strict ↦ err (unicode_decode_error position)
  | ignore ↦ ok ""
  | replace ↦ ok "�"
  | other ↦ err vumi_codec_exception
]

-- The loop of `decode`; `position` counts its rounds. `next(res)` on an exhausted iterator raises.
unfoldable pub decode_from : Errors → ℕ → List ℕ → Result String
unfolding decode_char char_at
decode_from errors position [] = ok ""
decode_from errors position (b ∷ []) =
    if b =? escape then err stop_iteration else decode_char errors position (char_at charset b)
decode_from errors position (b ∷ c ∷ rest) = elim (b =? escape) [
  | true ↦ decode_char errors position (char_at charset_extension c) >>= λ text.
      decode_from errors (position + 1) rest >>= λ more. ok (String.◌++◌ text more)
  | false ↦ decode_char errors position (char_at charset b) >>= λ text.
      decode_from errors (position + 1) (c ∷ rest) >>= λ more. ok (String.◌++◌ text more)
]

unfoldable pub decode : Errors → List ℕ → Result String
unfolding decode_from
decode errors input = decode_from errors 0 input
