-- ===== src/Rekey.antt =====
-- network/peer_manager.go: the change of a connection's session key, as the initiator and as the
-- responder.
pub mod Sign
pub mod Initiate
pub mod Respond
pub mod Steps
pub mod Exchange
