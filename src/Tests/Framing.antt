-- ===== src/Tests/Framing.antt =====
-- The theorems on the framing in src/vumi2/transports/smpp/client.py at concrete inputs.
use vumi.Prelude.{◌≡◌, ◌≢◌, ◌∷◌, ◌++◌, refl, List, [], Result, ok, err, value_error, arith}
use vumi.Smpp.Pdu.{Bytes}
use vumi.Smpp.Framing.{extract_pdu, out_of_fuel, consume_stream}
use vumi.Smpp.Framing.Chunks.{consume_stream_ends}
use vumi.Smpp.Framing.Frames.{receive_all, consume_stream-receives}

-- Keeps the PDUs, and raises on no bytes.
abbrev keep : Bytes → List Bytes → Result (Unit {0}) × List Bytes
keep [] s = (err value_error, s)
keep (b ∷ bs) s = (ok tt, s ++ ((b ∷ bs) ∷ []))

abbrev frame : Bytes
frame = 0 ∷ 0 ∷ 0 ∷ 16 ∷ 0 ∷ 0 ∷ 0 ∷ 21 ∷ 0 ∷ 0 ∷ 0 ∷ 0 ∷ 0 ∷ 0 ∷ 0 ∷ 1 ∷ []

abbrev longer : Bytes
longer = 0 ∷ 0 ∷ 0 ∷ 17 ∷ 0 ∷ 0 ∷ 0 ∷ 5 ∷ 0 ∷ 0 ∷ 0 ∷ 0 ∷ 0 ∷ 0 ∷ 0 ∷ 2 ∷ 7 ∷ []

-- The first chunk ends inside the second frame.
abbrev chunks : List Bytes
chunks =
    (0 ∷ 0 ∷ 0 ∷ 16 ∷ 0 ∷ 0 ∷ 0 ∷ 21 ∷ 0 ∷ 0 ∷ 0 ∷ 0 ∷ 0 ∷ 0 ∷ 0 ∷ 1 ∷ 0 ∷ 0 ∷ [])
    ∷ (0 ∷ 17 ∷ 0 ∷ 0 ∷ 0 ∷ 5 ∷ 0 ∷ 0 ∷ 0 ∷ 0 ∷ 0 ∷ 0 ∷ 0 ∷ 2 ∷ 7 ∷ 0 ∷ 0 ∷ [])
    ∷ []

consume_stream-receives_example :
    consume_stream keep chunks [] [] ≡ receive_all keep (0 ∷ 0 ∷ []) (frame ∷ longer ∷ []) []
unfolding extract_pdu
consume_stream-receives_example =
    consume_stream-receives keep chunks (frame ∷ longer ∷ []) (0 ∷ 0 ∷ []) []
      (λ s. (value_error, refl)) ((omega arith, refl), ((omega arith, refl), tt)) refl refl

consume_stream_ends_example : consume_stream keep chunks [] [] ≢ out_of_fuel
consume_stream_ends_example = consume_stream_ends keep (λ s. (value_error, refl)) chunks []
