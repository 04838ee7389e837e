-- ===== src/RateLimit.antt =====
-- network/peer_manager.go: the limits on the requests of a peer.
pub mod Requests
pub mod Window
pub mod Fresh
pub mod Cooldown
pub mod Inbound
pub mod Windowed
