-- ===== src/Tests.antt =====
-- Concrete inputs at which the theorems about vumi2 apply.
mod Messages
mod Caches
mod Codecs
mod Segments
mod Clients
mod Framing
mod Reports
mod Routers
mod Replies
mod Connectors
mod Sessions
mod Turns
mod Junebugs
mod Configurations
mod Loading
mod Transports
