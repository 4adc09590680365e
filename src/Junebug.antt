-- ===== src/Junebug.antt =====
-- `MemoryJunebugStateCache` of src/vumi2/applications/junebug_message_api/junebug_state_cache.py.
-- A stored message is kept as it is, in place of its serialised form.
pub mod StateCache
pub mod Outbound
pub mod Worker
use vumi.Prelude.{ℕ, String, Bool, Option, if◌then◌else◌}
use vumi.Messages.{Message}
use vumi.Cache.TimeoutDict.{TimeoutDict}
use vumi.Cache.TimeoutDict

pub record EventHttpInfo : Type 0 where
  pub url : String
  pub auth_token : Option String

pub record MemoryJunebugStateCache : Type 0 where
  pub store_event_info : Bool
  pub event_http_info : TimeoutDict EventHttpInfo
  pub inbound : TimeoutDict Message

unfoldable pub store_event_http_info :
    (now stamp : ℕ) (message_id url : String) (auth_token : Option String)
    → MemoryJunebugStateCache
    → MemoryJunebugStateCache
unfolding TimeoutDict.set_item
store_event_http_info now stamp message_id url auth_token c =
    if c.store_event_info
    then record c {
      event_http_info =
          TimeoutDict.set_item now stamp message_id (record { url = url; auth_token = auth_token })
            c.event_http_info;
    }
    else c

unfoldable pub fetch_event_http_info :
    (now : ℕ) → String → MemoryJunebugStateCache → Option EventHttpInfo × MemoryJunebugStateCache
unfolding TimeoutDict.get_item
fetch_event_http_info now message_id c =
    let (found, d) = TimeoutDict.get_item now message_id c.event_http_info in
    (found, record c { event_http_info = d })

unfoldable pub delete_event_http_info :
    (now : ℕ) → String → MemoryJunebugStateCache → MemoryJunebugStateCache
unfolding TimeoutDict.pop
delete_event_http_info now message_id c = record c {
  event_http_info = (TimeoutDict.pop now message_id c.event_http_info).1;
}

unfoldable pub store_inbound :
    (now stamp : ℕ) → Message → MemoryJunebugStateCache → MemoryJunebugStateCache
unfolding TimeoutDict.set_item
store_inbound now stamp msg c = record c {
  inbound = TimeoutDict.set_item now stamp msg.message_id msg c.inbound;
}

unfoldable pub fetch_inbound :
    (now : ℕ) → String → MemoryJunebugStateCache → Option Message × MemoryJunebugStateCache
unfolding TimeoutDict.get_item
fetch_inbound now message_id c =
    let (found, d) = TimeoutDict.get_item now message_id c.inbound in
    (found, record c { inbound = d })

unfoldable pub delete_inbound :
    (now : ℕ) → String → MemoryJunebugStateCache → MemoryJunebugStateCache
unfolding TimeoutDict.pop
delete_inbound now message_id c = record c {
  inbound = (TimeoutDict.pop now message_id c.inbound).1;
}
