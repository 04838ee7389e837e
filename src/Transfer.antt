-- ===== src/Transfer.antt =====
-- network/file_transfer.go: files sent in chunks.
pub mod Chunks
pub mod Node
pub mod Receive
pub mod Advance
pub mod Send
pub mod Complete
pub mod Finish
pub mod Queue
pub mod Scheduling
pub mod Distinct
pub mod Decisions
pub mod Accept
pub mod Accepted
pub mod Verified
pub mod Reassembly
pub mod Kept
pub mod Delivered
pub mod Arrival
