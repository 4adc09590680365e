-- ===== src/Tests/Codecs.antt =====
-- The theorems on src/vumi2/transports/smpp/codecs.py and sequencers.py at concrete inputs.

use vumi.Prelude.{◌≡◌, refl, [], ◌∷◌, ok, arith, char_eq, code, ap}
use vumi.Smpp.Codecs.{strict, encode, decode}
use vumi.Smpp.Codecs.RoundTrip.{NoEscape, decode-encode}
use vumi.Smpp.Sequencers.{Sequencer, limit}

euro_NoEscape : NoEscape "a€"
euro_NoEscape = (λ p. omega (arith, ap code p), (λ p. omega (arith, ap code p), tt))

decode-encode_example : decode strict (97 ∷ 27 ∷ 101 ∷ []) ≡ ok "a€"
unfolding encode
decode-encode_example = decode-encode strict "a€" euro_NoEscape refl

abbrev last : Sequencer
last = record { sequence_number = limit }
