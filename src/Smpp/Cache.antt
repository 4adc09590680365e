-- ===== src/Smpp/Cache.antt =====
-- `InMemorySmppCache` of src/vumi2/transports/smpp/smpp_cache.py.
pub mod Sort
pub mod Multipart
pub mod Ids
use vumi.Prelude.{
  ℕ, String, ◌<>◌, Option, none, some, List, [], ◌∷◌, length, ltb, ◌=?◌, ◌==◌, nat_eq, string_eq,
  pair_eq, if◌then◌else◌,
}
use vumi.Prelude.Dict
use vumi.Cache.TimeoutDict
use vumi.Cache.TimeoutDict.{TimeoutDict}

-- The parts of one message, by part number.
abbrev pub Parts : Type 0
Parts = List (ℕ × String)

-- `(ref_num, tot_num)`
abbrev pub Key : Type 0
Key = ℕ × ℕ

pub record SmppCache : Type 0 where
  pub multipart : List (Key × Parts)
  pub smpp_msg_id : TimeoutDict String

unfoldable pub new : ℕ → SmppCache
unfolding TimeoutDict.new
new timeout = record { multipart = []; smpp_msg_id = TimeoutDict.new timeout }

-- `sorted(parts.items())`: the part numbers differ, so the texts are never compared.
unfoldable pub insert_sorted : ℕ × String → Parts → Parts
insert_sorted p [] = p ∷ []
insert_sorted (i, c) ((j, d) ∷ l) =
    if ltb j i then (j, d) ∷ insert_sorted (i, c) l else (i, c) ∷ (j, d) ∷ l

unfoldable pub sort_parts : Parts → Parts
unfolding insert_sorted
sort_parts [] = []
sort_parts (p ∷ l) = insert_sorted p (sort_parts l)

-- `"".join(c for i, c in …)`
unfoldable pub join : Parts → String
join [] = ""
join ((i, c) ∷ l) = c <> join l

-- `self._multipart.setdefault(key, {})`, the value
abbrev pub parts_at : Option Parts → Parts
parts_at none = []
parts_at (some d) = d

unfoldable pub store_multipart :
    (ref_num tot_num part_num : ℕ) → String → SmppCache → Option String × SmppCache
unfolding sort_parts join Dict.insert Dict.erase Dict.lookup
store_multipart ref_num tot_num part_num content c =
    let key : Key = (ref_num, tot_num) in
    let parts = Dict.insert part_num content (parts_at (Dict.lookup key c.multipart)) in
    let multipart = Dict.insert key parts c.multipart in
    if length parts =? tot_num
    then (some (join (sort_parts parts)), record c { multipart = Dict.erase key multipart })
    else (none, record c { multipart = multipart })

unfoldable pub store_smpp_message_id :
    (now stamp : ℕ) (vumi_message_id smpp_message_id : String) → SmppCache → SmppCache
unfolding TimeoutDict.set_item
store_smpp_message_id now stamp vumi_message_id smpp_message_id c = record c {
  smpp_msg_id = TimeoutDict.set_item now stamp smpp_message_id vumi_message_id c.smpp_msg_id;
}

-- `self._smpp_msg_id.pop(smpp_message_id, None)`
unfoldable pub delete_smpp_message_id : (now : ℕ) → String → SmppCache → SmppCache
unfolding TimeoutDict.pop
delete_smpp_message_id now smpp_message_id c = record c {
  smpp_msg_id = (TimeoutDict.pop now smpp_message_id c.smpp_msg_id).1;
}

-- `return self._smpp_msg_id.pop(smpp_message_id)`: the read removes the entry.
unfoldable pub get_smpp_message_id : (now : ℕ) → String → SmppCache → Option String × SmppCache
unfolding TimeoutDict.pop
get_smpp_message_id now smpp_message_id c =
    let (value, d) = TimeoutDict.pop now smpp_message_id c.smpp_msg_id in
    (value, record c { smpp_msg_id = d })
