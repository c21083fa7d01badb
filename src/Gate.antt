-- ===== src/Gate.antt =====
-- The gateway's front end, gate/: packets, messages, payload encryption, sessions, connections.
pub mod Packet
pub mod Message
pub mod Crypto
pub mod Session
pub mod Conn
pub mod Client
pub mod Serve
pub mod Server
pub mod Ws
