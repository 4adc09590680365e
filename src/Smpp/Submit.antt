-- ===== src/Smpp/Submit.antt =====
-- `SubmitShortMessageProcessor` of src/vumi2/transports/smpp/processors.py: an outbound message
-- becomes the PDUs that carry it. The sequencer is the state; a call that raises has used its
-- numbers.
pub mod Split
pub mod Segments
use vumi.Prelude.{
  ℕ, zero, suc, ◌+◌, ◌-◌, ◌/◌, ◌%◌, String, Bool, true, false, Option, none, some, List, [], ◌∷◌,
  ◌++◌, ◌||◌, Result, ok, err, value_error, zero_division_error, key_error, ◌=?◌, ◌>>=◌, length,
  take, drop, leb, ltb, if◌then◌else◌,
}
use vumi.Messages.{Message}
use vumi.Smpp.Codecs
use vumi.Smpp.Pdu.{
  Bytes, DataCoding, RegisteredDelivery, SubmitSm, PythonCodecs, smsc_default_alphabet, ia5_ascii,
  latin_1, jis, cyrillic, iso_8859_8, ucs2,
}
use vumi.Smpp.Sequencers.{Sequencer, get_next_sequence_number}

pub data MultipartHandling : Type 0 where
  short_message message_payload multipart_sar multipart_udh : MultipartHandling

-- `SubmitShortMessageProcessorConfig`
pub record Config : Type 0 where
  pub data_coding : DataCoding
  pub multipart_handling : MultipartHandling
  pub service_type : Option String
  pub source_addr_ton : String
  pub source_addr_npi : String
  pub dest_addr_ton : String
  pub dest_addr_npi : String
  pub registered_delivery : RegisteredDelivery
  pub multipart_sar_reference_rollover : ℕ

-- The defaults of the configuration.
abbrev pub default_config : Config
default_config = record {
  data_coding = smsc_default_alphabet;
  multipart_handling = short_message;
  service_type = none;
  source_addr_ton = "UNKNOWN";
  source_addr_npi = "UNKNOWN";
  dest_addr_ton = "UNKNOWN";
  dest_addr_npi = "ISDN";
  registered_delivery = record {
    delivery_receipt = "NO_SMSC_DELIVERY_RECEIPT_REQUESTED";
    sme_originated_acks = [];
    intermediate_notification = false;
  };
  multipart_sar_reference_rollover = 0x10000;
}

-- `DataCodingCodecs[name].value`: a coding without a member is a `KeyError`.
unfoldable pub codec_name : DataCoding → Result String
codec_name smsc_default_alphabet = ok "gsm0338"
codec_name ia5_ascii = ok "ascii"
codec_name latin_1 = ok "latin1"
codec_name jis = ok "iso2022_jp"
codec_name cyrillic = ok "iso8859_5"
codec_name iso_8859_8 = ok "iso8859_8"
codec_name ucs2 = ok "utf_16_be"
codec_name _ = err key_error

-- `str.encode`: the one codec that the program registers, or one of Python's.
unfoldable pub encode_text : PythonCodecs → DataCoding → String → Result Bytes
unfolding codec_name Codecs.encode
encode_text py smsc_default_alphabet text = Codecs.encode Codecs.strict text
encode_text py coding text = codec_name coding >>= λ codec. py.encode codec text

abbrev pub or_empty : Option String → String
or_empty none = ""
or_empty (some s) = s

-- `data_coding in (SMSC_DEFAULT_ALPHABET, IA5_ASCII)`
abbrev pub is_seven_bit : DataCoding → Bool
is_seven_bit smsc_default_alphabet = true
is_seven_bit ia5_ascii = true
is_seven_bit _ = false

unfoldable pub get_msg_length : Config → (split_msg : Bool) → ℕ
get_msg_length config split_msg =
    if is_seven_bit config.data_coding
    then (if split_msg then 153 else 160)
    else (if split_msg then 134 else 140)

unfoldable pub fits_in_one_message : Config → Bytes → Bool
unfolding get_msg_length
fits_in_one_message config content = leb (length content) (get_msg_length config false)

-- The loop of `_split_message`: `for i in range(0, len(message), size)`, by the rounds left.
unfoldable pub split_from : (rounds i size : ℕ) → Bytes → List Bytes
split_from zero i size message = []
split_from (suc rounds) i size message =
    take size (drop i message) ∷ split_from rounds (i + size) size message

unfoldable pub split_message : Bytes → (size : ℕ) → List Bytes
unfolding split_from
split_message message size = split_from ((length message + (size - 1)) / size) 0 size message

-- The keyword arguments of `_submit_sm`.
pub record Body : Type 0 where
  pub short_message : Option Bytes
  pub message_payload : Option Bytes
  pub sar_msg_ref_num : Option ℕ
  pub sar_total_segments : Option ℕ
  pub sar_segment_seqnum : Option ℕ

abbrev pub short : Bytes → Body
short message = record {
  short_message = some message;
  message_payload = none;
  sar_msg_ref_num = none;
  sar_total_segments = none;
  sar_segment_seqnum = none;
}

unfoldable pub submit_sm :
    Config → (from_addr to_addr : String) → Body → Sequencer → SubmitSm × Sequencer
unfolding get_next_sequence_number
submit_sm config from_addr to_addr body s =
    let (n, s') = get_next_sequence_number s in
    (
      record {
        seq_num = n;
        service_type = config.service_type;
        source_addr_ton = config.source_addr_ton;
        source_addr_npi = config.source_addr_npi;
        dest_addr_ton = config.dest_addr_ton;
        dest_addr_npi = config.dest_addr_npi;
        data_coding = config.data_coding;
        registered_delivery = config.registered_delivery;
        source_addr = from_addr;
        destination_addr = to_addr;
        short_message = body.short_message;
        message_payload = body.message_payload;
        sar_msg_ref_num = body.sar_msg_ref_num;
        sar_total_segments = body.sar_total_segments;
        sar_segment_seqnum = body.sar_segment_seqnum;
      },
      s',
    )

-- The arguments that `submit_csm_sar_message` gives for the segment at index `i`.
abbrev pub sar_body : (ref_num total i : ℕ) → Bytes → Body
sar_body ref_num total i segment = record {
  short_message = some segment;
  message_payload = none;
  sar_msg_ref_num = some ref_num;
  sar_total_segments = some total;
  sar_segment_seqnum = some (i + 1);
}

-- `bytes([n])`
abbrev pub byte : ℕ → Result Bytes
byte n = if ltb n 256 then ok (n ∷ []) else err value_error

-- The `b"".join([...])` of `submit_csm_udh_message`.
unfoldable pub udh_message : (ref_num total i : ℕ) → Bytes → Result Bytes
udh_message ref_num total i segment = byte ref_num >>= λ ref. byte total >>= λ tot.
    byte (i + 1) >>= λ part. ok (5 ∷ 0 ∷ 3 ∷ (ref ++ (tot ++ (part ++ segment))))

-- What a loop over the segments returns: its PDUs, or the exception, and the sequencer.
abbrev pub Submits : Type 0
Submits = Result (List SubmitSm) × Sequencer

abbrev pub cons_submit : SubmitSm → Submits → Submits
cons_submit p (ok ps, s) = (ok (p ∷ ps), s)
cons_submit p (err e, s) = (err e, s)

module _ (config : Config) (from_addr to_addr : String) where
  -- The loop of `submit_csm_sar_message`.
  unfoldable pub sar_loop : (ref_num total i : ℕ) → List Bytes → Sequencer → Submits
  unfolding submit_sm
  sar_loop ref_num total i [] s = (ok [], s)
  sar_loop ref_num total i (segment ∷ segments) s =
      let (pdu, s') = submit_sm config from_addr to_addr (sar_body ref_num total i segment) s in
      cons_submit pdu (sar_loop ref_num total (i + 1) segments s')

  -- The PDUs are values here, whose parameters have any numbers; what does not fit into the bytes
  -- of a parameter is found when the PDU is encoded.
  unfoldable pub submit_csm_sar_message : Bytes → Sequencer → Submits
  unfolding sar_loop split_message get_msg_length
  submit_csm_sar_message message s =
      let (n, s') = get_next_sequence_number s in
      let segments = split_message message (get_msg_length config true) in
      if config.multipart_sar_reference_rollover =? 0
      then (err zero_division_error, s')
      else sar_loop (n % config.multipart_sar_reference_rollover) (length segments) 0 segments s'

  -- The loop of `submit_csm_udh_message`.
  unfoldable pub udh_loop : (ref_num total i : ℕ) → List Bytes → Sequencer → Submits
  unfolding submit_sm udh_message
  udh_loop ref_num total i [] s = (ok [], s)
  udh_loop ref_num total i (segment ∷ segments) s = elim (udh_message ref_num total i segment) [
    | err e ↦ (err e, s)
    | ok message ↦
        let (pdu, s') = submit_sm config from_addr to_addr (short message) s in
        cons_submit pdu (udh_loop ref_num total (i + 1) segments s')
  ]

  unfoldable pub submit_csm_udh_message : Bytes → Sequencer → Submits
  unfolding udh_loop split_message get_msg_length
  submit_csm_udh_message message s =
      let (n, s') = get_next_sequence_number s in
      let segments = split_message message (get_msg_length config true) in
      udh_loop (n % 0xFF) (length segments) 0 segments s'

  unfoldable pub submit_sm_short_message : Bytes → Sequencer → SubmitSm × Sequencer
  unfolding submit_sm
  submit_sm_short_message message s = submit_sm config from_addr to_addr (short message) s

  unfoldable pub submit_sm_long_message : Bytes → Sequencer → SubmitSm × Sequencer
  unfolding submit_sm
  submit_sm_long_message message s =
      submit_sm config from_addr to_addr
        (record (short message) { short_message = none; message_payload = some message }) s

abbrev pub one_submit : SubmitSm × Sequencer → Submits
one_submit (p, s) = (ok (p ∷ []), s)

-- The `if` chain of `handle_outbound_message`, over the encoded content.
unfoldable pub submit_content : Config → (from_addr to_addr : String) → Bytes → Sequencer → Submits
unfolding fits_in_one_message submit_sm_short_message submit_sm_long_message submit_csm_sar_message
    submit_csm_udh_message
submit_content config from_addr to_addr content s = elim config.multipart_handling [
  | short_message ↦ one_submit (submit_sm_short_message config from_addr to_addr content s)
  | message_payload ↦
      if fits_in_one_message config content
      then one_submit (submit_sm_short_message config from_addr to_addr content s)
      else one_submit (submit_sm_long_message config from_addr to_addr content s)
  | multipart_sar ↦
      if fits_in_one_message config content
      then one_submit (submit_sm_short_message config from_addr to_addr content s)
      else submit_csm_sar_message config from_addr to_addr content s
  | multipart_udh ↦
      if fits_in_one_message config content
      then one_submit (submit_sm_short_message config from_addr to_addr content s)
      else submit_csm_udh_message config from_addr to_addr content s
]

unfoldable pub handle_outbound_message : PythonCodecs → Config → Message → Sequencer → Submits
unfolding encode_text submit_content
handle_outbound_message py config message s =
    elim (encode_text py config.data_coding (or_empty message.content)) [
      | err e ↦ (err e, s)
      | ok content ↦ submit_content config message.from_addr message.to_addr content s
    ]
