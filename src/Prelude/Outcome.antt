-- ===== src/Prelude/Outcome.antt =====
-- Exceptions as values.
use Prim.Native.Nat.{ℕ}
use Prim.Native.String.{String}
use mathlib.Core.Path.{◌≡◌, refl}
use mathlib.Core.Bool.{Bool, true, false}

-- The exceptions that the program raises or lets through. The number is the position that a
-- Unicode error carries, the text is the argument of the exception.
pub data Error : Type 0 where
  key_error type_error value_error attribute_error index_error stop_iteration zero_division_error :
      Error
  unicode_encode_error unicode_decode_error : ℕ → Error
  vumi_codec_exception unbound_local_error not_implemented_error : Error
  duplicate_connector_error : String → Error
  api_usage_error message_not_found json_decode_error : String → Error
  invalid_body : String → Error
  signature_mismatch_error timeout_error validation_error : Error
  http_error_response : ℕ → Error
  smsc_unbind esme_response_status_error enquire_link_timeout bind_timeout : Error

pub data Result {ℓ} (A : Type ℓ) : Type ℓ where
  err : Error → Result A
  ok : A → Result A

-- `if …: raise …`
abbrev pub raise_if : Bool → Error → Result (Unit {0})
raise_if true e = err e
raise_if false e = ok tt

infixl 5 ◌>>=◌ ◌>>◌
-- What follows a call that may raise.
abbrev pub ◌>>=◌ {ℓ κ} : {T : Type ℓ} {R : Type κ} → Result T → (T → Result R) → Result R
err e >>= next = err e
ok v >>= next = next v

abbrev pub ◌>>◌ {κ} : {R : Type κ} → Result (Unit {0}) → Result R → Result R
m >> next = m >>= λ _. next

-- A chain that returns has a first call that returns.
pub >>=-eq-ok {ℓ κ} :
    {T : Type ℓ} {R : Type κ} (call : Result T) (next : T → Result R) {r : R}
    → (call >>= next) ≡ ok r
    → (v : T) × (call ≡ ok v) × (next v ≡ ok r)
>>=-eq-ok (err e) next h = cc
>>=-eq-ok (ok v) next h = (v, refl, h)
