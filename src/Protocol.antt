-- ===== src/Protocol.antt =====
-- protocol.go and protocolserver.go: the casync protocol between a client and a chunk server.
pub mod Defs
pub mod Messages
pub mod Server
pub mod Rounds
pub mod Session
pub mod Loop
