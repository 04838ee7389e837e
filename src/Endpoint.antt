-- ===== src/Endpoint.antt =====
-- network/peer_manager.go: the endpoints of a peer and how well they did.
pub mod Health
pub mod Ranked
pub mod Plan
