-- ===== src/Network.antt =====
-- network: packets and the requests that wait for an answer.
pub mod Packet
pub mod Requests
pub mod Address
pub mod Upstream
pub mod Connection
pub mod Incoming
