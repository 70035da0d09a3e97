-- ===== src/Tests.antt =====
-- The properties at concrete messages.
pub mod Messages
pub mod Answers
pub mod Network
pub mod Crypt
pub mod Cache
pub mod Filter
pub mod Channel
pub mod Hosts
pub mod File
pub mod Address
pub mod Resolvers
pub mod Responder
pub mod Servers
pub mod Upstream
pub mod Certifier
pub mod Connection
pub mod Cresponder
