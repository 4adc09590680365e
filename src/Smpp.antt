-- ===== src/Smpp.antt =====
-- The SMPP transport, src/vumi2/transports/smpp/.
pub mod Cache
pub mod Codecs
pub mod Sequencers
pub mod Pdu
pub mod Enums
pub mod Submit
pub mod Deliver
pub mod Reports
pub mod Framing
pub mod Client
pub mod Transport
