-- ===== src/Dns.antt =====
-- dns: messages, the cache, and the encryption of messages.
pub mod Constants
pub mod Header
pub mod Name
pub mod Question
pub mod Record
pub mod Ttl
pub mod Answer
pub mod Cache
pub mod Crypt
pub mod WordSets
pub mod Filter
pub mod Hosts
pub mod Info
pub mod Responder
