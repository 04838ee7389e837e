-- ===== src/Storage.antt =====
-- storage/: the tables that the protocol reads and writes, and their operations.
pub mod Seen
pub mod Messages
pub mod Pending
pub mod Marked
pub mod Files
pub mod Checkpoints
pub mod Folders
pub mod Peers
pub mod Pinned
