-- ===== src/Messaging.antt =====
-- network/peer_manager.go: text messages, acknowledgements and the offline queue.
pub mod Node
pub mod Limits
pub mod Trimmed
pub mod Bounded
pub mod Session
pub mod Receive
pub mod Opened
pub mod Genuine
pub mod Outgoing
pub mod Built
pub mod Delivery
pub mod Ack
pub mod Acked
