-- ===== src/Dns/Crypt.antt =====
-- dns/crypt: what is put around a message that is encrypted, and the certificates of servers. The
-- functions of libsodium are arguments.
pub mod Padding
pub mod Certificate
pub mod Csv
pub mod Keys
pub mod Resolvers
pub mod Cresponder
pub mod Box
pub mod Layout
pub mod Client
pub mod Server
pub mod Sealed
pub mod Channel
pub mod Certifier
