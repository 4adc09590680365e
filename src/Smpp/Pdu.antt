-- ===== src/Smpp/Pdu.antt =====
-- The PDUs that src/vumi2/transports/smpp builds and reads, as records of the fields that it
-- names. The classes are those of the package `smpp.pdu`, and so are the enumerations: of
-- `AddrTon`, `AddrNpi` and the flags of `RegisteredDelivery` a member is its name.
use vumi.Prelude.{ℕ, String, Option, List, Bool, Result}

abbrev pub Bytes : Type 0
Bytes = List ℕ

-- `DataCodingDefault`
pub data DataCoding : Type 0 where
  smsc_default_alphabet ia5_ascii octet_unspecified latin_1 octet_unspecified_common jis :
      DataCoding
  cyrillic iso_8859_8 ucs2 pictogram iso_2022_jp extended_kanji_jis ks_c_5601 : DataCoding

-- `EsmClassType`, as far as the program asks.
pub data EsmClassType : Type 0 where
  default other_type : EsmClassType

pub record RegisteredDelivery : Type 0 where
  pub delivery_receipt : String
  pub sme_originated_acks : List String
  pub intermediate_notification : Bool

pub record SubmitSm : Type 0 where
  pub seq_num : ℕ
  pub service_type : Option String
  pub source_addr_ton : String
  pub source_addr_npi : String
  pub dest_addr_ton : String
  pub dest_addr_npi : String
  pub data_coding : DataCoding
  pub registered_delivery : RegisteredDelivery
  pub source_addr : String
  pub destination_addr : String
  pub short_message : Option Bytes
  pub message_payload : Option Bytes
  pub sar_msg_ref_num : Option ℕ
  pub sar_total_segments : Option ℕ
  pub sar_segment_seqnum : Option ℕ

pub record DeliverSm : Type 0 where
  pub seq_num : ℕ
  pub source_addr : Bytes
  pub destination_addr : Bytes
  pub esm_class : EsmClassType
  pub data_coding : DataCoding
  pub short_message : Option Bytes
  pub message_payload : Option Bytes
  pub sar_msg_ref_num : Option ℕ
  pub sar_total_segments : Option ℕ
  pub sar_segment_seqnum : Option ℕ
  pub receipted_message_id : Option Bytes
  pub message_state : Option String

-- The codecs of Python's library that the program names, table-driven ones among them: strict
-- encoding and decoding by the codec's name.
pub record PythonCodecs : Type 0 where
  pub encode : (codec : String) → String → Result Bytes
  pub decode : (codec : String) → Bytes → Result String
