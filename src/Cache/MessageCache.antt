-- ===== src/Cache/MessageCache.antt =====
-- `MemoryMessageCache` of src/vumi2/message_caches.py: the messages of the last hour by their ids.
pub mod Latest
use vumi.Prelude.{
  ℕ, String, Bool, Option, none, some, List, [], ◌∷◌, filter, ltb, ◌==◌, string_eq, if◌then◌else◌,
}
use vumi.Messages.{Message}
use vumi.Cache.TimeoutDict.{TimeoutDict}
use vumi.Cache.TimeoutDict

pub record MemoryMessageCache : Type 0 where
  pub outbounds : TimeoutDict Message
  pub inbounds : TimeoutDict Message

unfoldable pub new : (timeout : ℕ) → MemoryMessageCache
unfolding TimeoutDict.new
new timeout = record { outbounds = TimeoutDict.new timeout; inbounds = TimeoutDict.new timeout }

unfoldable pub store_outbound : (now stamp : ℕ) → Message → MemoryMessageCache → MemoryMessageCache
unfolding TimeoutDict.set_item
store_outbound now stamp outbound c = record c {
  outbounds = TimeoutDict.set_item now stamp outbound.message_id outbound c.outbounds;
}

unfoldable pub fetch_outbound :
    (now : ℕ) → String → MemoryMessageCache → Option Message × MemoryMessageCache
unfolding TimeoutDict.get_item
fetch_outbound now message_id c =
    let (found, d) = TimeoutDict.get_item now message_id c.outbounds in
    (found, record c { outbounds = d })

unfoldable pub store_inbound : (now stamp : ℕ) → Message → MemoryMessageCache → MemoryMessageCache
unfolding TimeoutDict.set_item
store_inbound now stamp inbound c = record c {
  inbounds = TimeoutDict.set_item now stamp inbound.message_id inbound c.inbounds;
}

unfoldable pub fetch_inbound :
    (now : ℕ) → String → MemoryMessageCache → Option Message × MemoryMessageCache
unfolding TimeoutDict.get_item
fetch_inbound now message_id c =
    let (found, d) = TimeoutDict.get_item now message_id c.inbounds in
    (found, record c { inbounds = d })

-- `max(messages, key=lambda x: x.timestamp)`: the first of the latest.
unfoldable pub latest : Message → List Message → Message
latest best [] = best
latest best (m ∷ ms) = latest (if ltb best.timestamp m.timestamp then m else best) ms

abbrev pub latest_of : List Message → Option Message
latest_of [] = none
latest_of (m ∷ ms) = some (latest m ms)

unfoldable pub fetch_last_inbound_by_from_address :
    (now : ℕ) → String → MemoryMessageCache → Option Message × MemoryMessageCache
unfolding TimeoutDict.values latest
fetch_last_inbound_by_from_address now from_addr c =
    let (all, d) = TimeoutDict.values now c.inbounds in
    (
      latest_of (filter (λ (msg : Message). msg.from_addr == from_addr) all),
      record c { inbounds = d },
    )
