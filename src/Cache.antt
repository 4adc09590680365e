-- ===== src/Cache.antt =====
-- The caches of src/vumi2/message_caches.py and what is built on them.
pub mod TimeoutDict
pub mod MessageCache
