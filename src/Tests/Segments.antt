-- ===== src/Tests/Segments.antt =====
-- The theorems on the segments of src/vumi2/transports/smpp/processors.py at concrete inputs.
use vumi.Prelude.{ℕ, zero, suc, ◌%◌, ◌≤◌, ◌<◌, ◌≡◌, refl, true, [], ◌∷◌, length, arith, All}
use vumi.Smpp.Pdu.{Bytes}
use vumi.Smpp.Sequencers.{Sequencer, get_next_sequence_number}
use vumi.Smpp.Submit.{
  Config, default_config, multipart_sar, multipart_udh, get_msg_length, split_message,
  submit_csm_sar_message, submit_csm_udh_message,
}
use vumi.Smpp.Submit.Split.{join_bytes, length-split_message}
use vumi.Smpp.Deliver.Extract.{
  Carries, segments_of, numbered, submit_csm_sar-received, submit_csm_udh-received,
}

abbrev pub zeros : ℕ → Bytes
zeros zero = []
zeros (suc n) = 0 ∷ zeros n

length-zeros : (n : ℕ) → length (zeros n) ≡ n
length-zeros zero = refl
length-zeros (suc n) = omega (arith, length-zeros n)

abbrev sequencer : Sequencer
sequencer = record { sequence_number = 41 }

abbrev sar : Config
sar = record default_config { multipart_handling = multipart_sar }

abbrev udh : Config
udh = record default_config { multipart_handling = multipart_udh }

many : 256 ≤ length (split_message (zeros 40000) (get_msg_length udh true))
unfolding get_msg_length
many =
    omega
      (arith, (length-split_message (zeros 40000) (get_msg_length udh true)).0, length-zeros 40000)

submit_csm_sar-received_example :
    Carries sar "+1" "+2"
      (1 ∷ [])
      (2 ∷ [])
      (submit_csm_sar_message sar "+1" "+2" (zeros 200) sequencer)
      (numbered
        ((get_next_sequence_number sequencer).0 % 0x10000)
        (length (segments_of sar "+1" "+2" (1 ∷ []) (2 ∷ []) (zeros 200)))
        0
        (segments_of sar "+1" "+2" (1 ∷ []) (2 ∷ []) (zeros 200)))
    × ((get_next_sequence_number sequencer).0 % 0x10000 < 0x10000)
    × (length (segments_of sar "+1" "+2" (1 ∷ []) (2 ∷ []) (zeros 200)) < 0x100)
    × (join_bytes (segments_of sar "+1" "+2" (1 ∷ []) (2 ∷ []) (zeros 200)) ≡ zeros 200)
    × All
        (λ (piece : Bytes). length piece ≤ get_msg_length sar true)
        (segments_of sar "+1" "+2" (1 ∷ []) (2 ∷ []) (zeros 200))
unfolding get_msg_length
submit_csm_sar-received_example =
    submit_csm_sar-received sar "+1" "+2" (1 ∷ []) (2 ∷ []) (zeros 200) sequencer (omega arith)
      (omega arith) few
  where
    few : length (segments_of sar "+1" "+2" (1 ∷ []) (2 ∷ []) (zeros 200)) < 256
    few =
        omega
          (arith, (length-split_message (zeros 200) (get_msg_length sar true)).0, length-zeros 200)

submit_csm_udh-received_example :
    Carries udh "+1" "+2"
      (1 ∷ [])
      (2 ∷ [])
      (submit_csm_udh_message udh "+1" "+2" (zeros 200) sequencer)
      (numbered
        ((get_next_sequence_number sequencer).0 % 0xFF)
        (length (segments_of udh "+1" "+2" (1 ∷ []) (2 ∷ []) (zeros 200)))
        0
        (segments_of udh "+1" "+2" (1 ∷ []) (2 ∷ []) (zeros 200)))
    × (join_bytes (segments_of udh "+1" "+2" (1 ∷ []) (2 ∷ []) (zeros 200)) ≡ zeros 200)
unfolding get_msg_length
submit_csm_udh-received_example =
    submit_csm_udh-received udh "+1" "+2" (1 ∷ []) (2 ∷ []) (zeros 200) sequencer few
  where
    few : length (segments_of udh "+1" "+2" (1 ∷ []) (2 ∷ []) (zeros 200)) < 256
    few =
        omega
          (arith, (length-split_message (zeros 200) (get_msg_length udh true)).0, length-zeros 200)
