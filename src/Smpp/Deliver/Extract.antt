-- ===== src/Smpp/Deliver/Extract.antt =====
-- What `_extract_multipart` reads from the PDUs that a processor of the same program has sent
-- (src/vumi2/transports/smpp/processors.py). The SMSC hands on the message and the parameters.
use mathlib.Core.Path.{ap₂}
use native.Mathlib.Nat.{mod-lt}
use vumi.Prelude.{
  ℕ, ◌+◌, ◌%◌, ◌≤◌, ◌<◌, ◌≡◌, refl, ap, ◌∙◌, String, true, Option, none, some, List, [], ◌∷◌, map,
  ok, err, length, lt→ltb, pos→nonzero, arith, All,
}
use vumi.Smpp.Pdu.{Bytes, SubmitSm, DeliverSm, default}
use vumi.Smpp.Sequencers.{Sequencer, get_next_sequence_number}
use vumi.Smpp.Submit.{
  Config, submit_sm, sar_body, short, udh_message, Submits, cons_submit, sar_loop, udh_loop,
  submit_csm_sar_message, submit_csm_udh_message, split_message, get_msg_length,
}
use vumi.Smpp.Submit.Split.{join_bytes, join-split_message, length-split_message}
use vumi.Smpp.Deliver.{OptionalPart, extract_multipart}

-- The PDU by which an SMSC delivers what was submitted to it, to the address `destination` as from
-- the address `source`.
pub relay : (source destination : Bytes) → SubmitSm → DeliverSm
relay source destination p = record {
  seq_num = p.seq_num;
  source_addr = source;
  destination_addr = destination;
  esm_class = default;
  data_coding = p.data_coding;
  short_message = p.short_message;
  message_payload = p.message_payload;
  sar_msg_ref_num = p.sar_msg_ref_num;
  sar_total_segments = p.sar_total_segments;
  sar_segment_seqnum = p.sar_segment_seqnum;
  receipted_message_id = none;
  message_state = none;
}

-- The segments with their numbers, from index `i` on.
pub numbered : (ref_num total i : ℕ) → List Bytes → List (Option OptionalPart)
numbered ref_num total i [] = []
numbered ref_num total i (segment ∷ segments) =
    some (ref_num, total, i + 1, some segment) ∷ numbered ref_num total (i + 1) segments

module _ (config : Config) (from_addr to_addr : String) (source destination : Bytes) where
  abbrev pub received : SubmitSm → Option OptionalPart
  received p = extract_multipart (relay source destination p)

  -- A loop returns PDUs from which the parts `parts` are read.
  abbrev pub Carries : Submits → List (Option OptionalPart) → Type 0
  Carries r parts = (pdus : List SubmitSm) × (r.0 ≡ ok pdus) × (map received pdus ≡ parts)

  Carries-cons :
      (p : SubmitSm) (r : Submits) {part : Option OptionalPart} {parts : List (Option OptionalPart)}
      → received p ≡ part
      → Carries r parts
      → Carries (cons_submit p r) (part ∷ parts)
  Carries-cons p (ok ps, s) e (pdus, h, k) =
      let same : ps ≡ pdus = cc in (p ∷ ps, refl, ap₂ ◌∷◌ e (ap (map received) same ∙ k))
  Carries-cons p (err x, s) e (pdus, h, k) = absurd (cc)

  sar_received :
      (ref_num total i : ℕ) (segment : Bytes) (s : Sequencer)
      → received (submit_sm config from_addr to_addr (sar_body ref_num total i segment) s).0
        ≡ some (ref_num, total, i + 1, some segment)
  unfolding relay submit_sm extract_multipart
  sar_received ref_num total i segment s = refl

  sar_loop-Carries :
      (ref_num total i : ℕ) (segments : List Bytes) (s : Sequencer)
      → Carries
          (sar_loop config from_addr to_addr ref_num total i segments s)
          (numbered ref_num total i segments)
  unfolding sar_loop numbered
  sar_loop-Carries ref_num total i [] s = ([], refl, refl)
  sar_loop-Carries ref_num total i (segment ∷ segments) s =
      Carries-cons _ _ (sar_received ref_num total i segment s)
        (sar_loop-Carries ref_num total (i + 1) segments _)

  udh_bytes :
      (ref_num total i : ℕ) (segment : Bytes)
      → ref_num < 256
      → total < 256
      → i < total
      → udh_message ref_num total i segment ≡ ok (5 ∷ 0 ∷ 3 ∷ ref_num ∷ total ∷ (i + 1) ∷ segment)
  unfolding udh_message
  udh_bytes ref_num total i segment r t b = rw (lt→ltb _ _ r, lt→ltb _ _ t) (ground arith)

  udh_received :
      (ref_num total i : ℕ) (segment : Bytes) (s : Sequencer)
      → i < total
      → received
          (submit_sm config from_addr to_addr
            (short (5 ∷ 0 ∷ 3 ∷ ref_num ∷ total ∷ (i + 1) ∷ segment))
            s).0
        ≡ some (ref_num, total, i + 1, some segment)
  unfolding relay submit_sm extract_multipart
  udh_received ref_num total i segment s b = ground arith

  udh_loop-Carries :
      (ref_num total i : ℕ) (segments : List Bytes) (s : Sequencer)
      → ref_num < 256
      → total < 256
      → i + length segments ≤ total
      → Carries
          (udh_loop config from_addr to_addr ref_num total i segments s)
          (numbered ref_num total i segments)
  unfolding udh_loop numbered
  udh_loop-Carries ref_num total i [] s r t b = ([], refl, refl)
  udh_loop-Carries ref_num total i (segment ∷ segments) s r t b =
      rw (udh_bytes ref_num total i segment r t (omega arith), udh_loop)
        (Carries-cons _ _ (udh_received ref_num total i segment s (omega arith))
          (udh_loop-Carries ref_num total (i + 1) segments _ r t (omega arith)))

  -- The segments that the processor cuts a message into, and the reference numbers.
  abbrev pub segments_of : Bytes → List Bytes
  segments_of message = split_message message (get_msg_length config true)

  size_pos : 0 < get_msg_length config true
  unfolding get_msg_length
  size_pos = ground arith

  -- A message of at most 255 pieces is sent by `submit_csm_sar_message`, where the rollover of the
  -- reference numbers is from 1 to 65536, in PDUs from which `_extract_multipart` reads, in order,
  -- the pieces of the message under one reference number, each with the number of pieces and its
  -- own number from 1. Each number fits its parameter, the reference number in two bytes and the
  -- other two in one; the pieces together are the message, and none is too long.
  pub submit_csm_sar-received :
      (message : Bytes) (s : Sequencer)
      → 0 < config.multipart_sar_reference_rollover
      → config.multipart_sar_reference_rollover ≤ 0x10000
      → length (segments_of message) < 256
      → Carries (submit_csm_sar_message config from_addr to_addr message s) (
          numbered
            ((get_next_sequence_number s).0 % config.multipart_sar_reference_rollover)
            (length (segments_of message))
            0
            (segments_of message))
        × ((get_next_sequence_number s).0 % config.multipart_sar_reference_rollover < 0x10000)
        × (length (segments_of message) < 0x100)
        × (join_bytes (segments_of message) ≡ message)
        × All (λ (piece : Bytes). length piece ≤ get_msg_length config true) (segments_of message)
  unfolding submit_csm_sar_message
  submit_csm_sar-received message s pos roll small = (
    rw (pos→nonzero _ pos) (sar_loop-Carries _ _ 0 (segments_of message) _),
    omega (arith, mod-lt (get_next_sequence_number s).0 pos),
    small,
    join-split_message message _ size_pos,
    (length-split_message message (get_msg_length config true)).1,
  )

  -- Every message of at most 255 pieces is sent by `submit_csm_udh_message` in PDUs with a header
  -- from which `_extract_multipart` reads, in order, the pieces of the message under one
  -- reference number, each with the number of pieces and its own number from 1; the pieces
  -- together are the message.
  pub submit_csm_udh-received :
      (message : Bytes) (s : Sequencer)
      → length (segments_of message) < 256
      → Carries (submit_csm_udh_message config from_addr to_addr message s) (
          numbered
            ((get_next_sequence_number s).0 % 0xFF)
            (length (segments_of message))
            0
            (segments_of message))
        × (join_bytes (segments_of message) ≡ message)
  unfolding submit_csm_udh_message
  submit_csm_udh-received message s small = (
    udh_loop-Carries _ _ 0 (segments_of message) _ (omega arith) small (omega arith),
    join-split_message message _ size_pos,
  )
