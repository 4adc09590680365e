-- ===== src/Prelude/Texts.antt =====
-- Operations of Python's `str`.
use Prim.Native.Nat.{ℕ, zero, suc, ◌/◌, ◌%◌}
use Prim.Native.Char.{Char, code}
use Prim.Native.String.{String, ◌++◌ as ◌<>◌}
use mathlib.Core.Bool.{Bool, true, false}
use text.Mathlib.Text.{starts_with}
use vumi.Prelude.Tests.{if◌then◌else◌, ltb}
use vumi.Prelude.Equality.{◌==◌, char_eq, string_eq}

-- `needle in text`
unfoldable pub is_in : (needle : String) → String → Bool
is_in needle String.[] = needle == ""
is_in needle (String.◌∷◌ c s) =
    let later = is_in needle s in if starts_with (String.◌∷◌ c s) needle then true else later

-- `text.lstrip(c)`
unfoldable pub lstrip : Char → String → String
lstrip c String.[] = ""
lstrip c (String.◌∷◌ d s) = let rest = lstrip c s in if d == c then rest else String.◌∷◌ d s

-- `text.rstrip(c)`
unfoldable pub rstrip : Char → String → String
rstrip c String.[] = ""
rstrip c (String.◌∷◌ d s) =
    let rest = rstrip c s in
    if d == c then (if rest == "" then "" else String.◌∷◌ d rest) else String.◌∷◌ d rest

-- All code points below 128.
unfoldable pub is_ascii : String → Bool
is_ascii String.[] = true
is_ascii (String.◌∷◌ c s) = let rest = is_ascii s in if ltb (code c) 128 then rest else false

abbrev digit : ℕ → String
digit zero = "0"
digit (suc zero) = "1"
digit (suc (suc zero)) = "2"
digit (suc (suc (suc zero))) = "3"
digit (suc (suc (suc (suc zero)))) = "4"
digit (suc (suc (suc (suc (suc zero))))) = "5"
digit (suc (suc (suc (suc (suc (suc zero)))))) = "6"
digit (suc (suc (suc (suc (suc (suc (suc zero))))))) = "7"
digit (suc (suc (suc (suc (suc (suc (suc (suc zero)))))))) = "8"
digit n = "9"

digits : (fuel n : ℕ) → String → String
digits zero n acc = acc
digits (suc fuel) n acc =
    let rest = digits fuel (n / 10) (digit (n % 10) <> acc) in
    if ltb n 10 then digit n <> acc else rest

-- `str(n)`: as many digits as `n` has at most.
unfoldable pub decimal : ℕ → String
unfolding digits
decimal n = digits (suc n) n ""
