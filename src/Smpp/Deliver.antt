-- ===== src/Smpp/Deliver.antt =====
-- `ShortMessageProcessor` of src/vumi2/transports/smpp/processors.py: a `deliver_sm` becomes an
-- inbound message, when all its parts are there. The cache is the state.
pub mod Extract
use vumi.Prelude.{
  ℕ, ◌+◌, ◌*◌, String, Bool, true, false, Option, none, some, List, [], ◌∷◌, ◌&&◌, Result, ok, err,
  attribute_error, ◌>>=◌, leb, ◌=?◌, ◌==◌, string_eq, if◌then◌else◌,
}
use vumi.Prelude.Dict
use vumi.Messages.{Message, new_message, sms}
use vumi.Smpp.Codecs
use vumi.Smpp.Pdu.{Bytes, DataCoding, DeliverSm, PythonCodecs, smsc_default_alphabet}
use vumi.Smpp.Cache.{SmppCache, store_multipart}
use vumi.Smpp.Submit.{codec_name}

-- `ShortMessageProcessorConfig.data_coding_overrides`, by the name of the coding, which is asked
-- for by `schemeData.name`.
pub record Config : Type 0 where
  pub data_coding_overrides : List (String × String)

-- `DataCodingDefault.name`
abbrev pub scheme_name : DataCoding → String
scheme_name DataCoding.smsc_default_alphabet = "SMSC_DEFAULT_ALPHABET"
scheme_name DataCoding.ia5_ascii = "IA5_ASCII"
scheme_name DataCoding.octet_unspecified = "OCTET_UNSPECIFIED"
scheme_name DataCoding.latin_1 = "LATIN_1"
scheme_name DataCoding.octet_unspecified_common = "OCTET_UNSPECIFIED_COMMON"
scheme_name DataCoding.jis = "JIS"
scheme_name DataCoding.cyrillic = "CYRILLIC"
scheme_name DataCoding.iso_8859_8 = "ISO_8859_8"
scheme_name DataCoding.ucs2 = "UCS2"
scheme_name DataCoding.pictogram = "PICTOGRAM"
scheme_name DataCoding.iso_2022_jp = "ISO_2022_JP"
scheme_name DataCoding.extended_kanji_jis = "EXTENDED_KANJI_JIS"
scheme_name DataCoding.ks_c_5601 = "KS_C_5601"

-- `bytes.decode(codec)`
unfoldable pub decode_bytes : PythonCodecs → (codec : String) → Bytes → Result String
unfolding Codecs.decode
decode_bytes py codec text =
    if codec == "gsm0338" then Codecs.decode Codecs.strict text else py.decode codec text

unfoldable pub decode_text : PythonCodecs → Config → Bytes → DataCoding → Result String
unfolding decode_bytes Dict.lookup codec_name
decode_text py config text coding =
    elim (Dict.lookup (scheme_name coding) config.data_coding_overrides) [
      | some codec ↦ decode_bytes py codec text
      | none ↦ codec_name coding >>= λ codec. decode_bytes py codec text
    ]

-- `None` has no method `decode`.
abbrev pub given : Option Bytes → Result Bytes
given none = err attribute_error
given (some b) = ok b

unfoldable pub get_text : PythonCodecs → Config → DeliverSm → Result String
unfolding decode_text
get_text py config pdu = elim pdu.message_payload [
  | some payload ↦ decode_text py config payload pdu.data_coding
  | none ↦ given pdu.short_message >>= λ text. decode_text py config text pdu.data_coding
]

-- The `Message(...)` that both handlers build; the transport fills in its name later.
abbrev pub inbound_message : (now : ℕ) (id to_addr from_addr content : String) → Message
inbound_message now id to_addr from_addr content =
    record (new_message now id to_addr from_addr "" sms) { content = some content }

-- The same with the addresses decoded.
unfoldable pub inbound :
    PythonCodecs → (now : ℕ) (id : String) → DeliverSm → String → Result Message
unfolding new_message
inbound py now id pdu content = do
  to_addr ← py.decode "utf-8" pdu.destination_addr
  from_addr ← py.decode "utf-8" pdu.source_addr
  ok (inbound_message now id to_addr from_addr content)

-- `_handle_short_message`
unfoldable pub handle_short_message :
    PythonCodecs → Config → (now : ℕ) (id : String) → DeliverSm → Result Message
unfolding get_text new_message
handle_short_message py config now id pdu = do
  to_addr ← py.decode "utf-8" pdu.destination_addr
  from_addr ← py.decode "utf-8" pdu.source_addr
  content ← get_text py config pdu
  ok (inbound_message now id to_addr from_addr content)

-- reference number, total number, part number, message
abbrev pub Part : Type 0
Part = ℕ × ℕ × ℕ × Bytes

-- `total_number >= 1 and 1 <= part_number <= total_number`
abbrev pub is_numbered : (total part : ℕ) → Bool
is_numbered total part = leb 1 total && (leb 1 part && leb part total)

-- The test on `b"\x06\x08\x04"` and what follows it.
unfoldable pub extract_csm16 : Bytes → Option Part
extract_csm16 (a ∷ b ∷ c ∷ hi ∷ lo ∷ total ∷ part ∷ rest) =
    if a =? 6 && (b =? 8 && (c =? 4 && is_numbered total part))
    then some (hi * 256 + lo, total, part, rest)
    else none
extract_csm16 _ = none

-- The test on `b"\x05\x00\x03"`; a message that it does not take goes on to the next one.
unfoldable pub extract_csm : Bytes → Option Part
unfolding extract_csm16
extract_csm (a ∷ b ∷ c ∷ ref ∷ total ∷ part ∷ rest) =
    if a =? 5 && (b =? 0 && (c =? 3 && is_numbered total part))
    then some (ref, total, part, rest)
    else extract_csm16 (a ∷ b ∷ c ∷ ref ∷ total ∷ part ∷ rest)
extract_csm short_message = extract_csm16 short_message

unfoldable pub extract_udh : Option Bytes → Option Part
unfolding extract_csm
extract_udh none = none
extract_udh (some short_message) = extract_csm short_message

-- `_extract_multipart`, where the optional parameters are given the message may still be `None`.
abbrev pub OptionalPart : Type 0
OptionalPart = ℕ × ℕ × ℕ × Option Bytes

abbrev pub with_bytes : Option Part → Option OptionalPart
with_bytes none = none
with_bytes (some (ref, total, part, message)) = some (ref, total, part, some message)

abbrev pub by_params :
    (ref total part : Option ℕ) → Option Bytes → Option OptionalPart → Option OptionalPart
by_params (some ref) (some total) (some part) message otherwise = some (ref, total, part, message)
by_params _ _ _ message otherwise = otherwise

unfoldable pub extract_multipart : DeliverSm → Option OptionalPart
unfolding extract_udh
extract_multipart pdu =
    by_params pdu.sar_msg_ref_num pdu.sar_total_segments pdu.sar_segment_seqnum pdu.short_message
      (with_bytes (extract_udh pdu.short_message))

-- The message of a full set of parts, or none yet.
abbrev pub inbound_if :
    PythonCodecs → (now : ℕ) (id : String) → DeliverSm → Option String → Result (Option Message)
inbound_if py now id pdu none = ok none
inbound_if py now id pdu (some content) = inbound py now id pdu content >>= λ m. ok (some m)

-- The parts of `_handle_multipart_message` behind a successful extraction.
unfoldable pub store_part :
    PythonCodecs
    → Config
    → (now : ℕ) (id : String) → DeliverSm
    → OptionalPart
    → SmppCache
    → Result (Option Message) × SmppCache
unfolding inbound
store_part py config now id pdu (ref, total, part, message) c =
    elim (given message >>= λ text. decode_text py config text pdu.data_coding) [
      | err e ↦ (err e, c)
      | ok content ↦
          let (full, c') = store_multipart ref total part content c in
          (inbound_if py now id pdu full, c')
    ]

-- `handle_deliver_sm`: as a part of a message if it is one, else as a message of its own.
unfoldable pub handle_deliver_sm :
    PythonCodecs
    → Config
    → (now : ℕ) (id : String) → DeliverSm
    → SmppCache
    → Result (Option Message) × SmppCache
unfolding extract_multipart store_part handle_short_message
handle_deliver_sm py config now id pdu c = elim (extract_multipart pdu) [
  | some part ↦ store_part py config now id pdu part c
  | none ↦ (handle_short_message py config now id pdu >>= λ m. ok (some m), c)
]
