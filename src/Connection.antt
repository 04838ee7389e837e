-- ===== src/Connection.antt =====
-- network/connection.go: PeerConnection. State.antt has its fields and the operations that touch
-- nothing else, Secure.antt the secure frames, Send.antt SendRaw and Disconnect, ReadLoop.antt one
-- round of readLoop, KeepAlive.antt one tick of keepAliveLoop.
pub mod State
pub mod Secure
pub mod Send
pub mod ReadLoop
pub mod KeepAlive
pub mod Sequence
pub mod Epoch
pub mod Rotations
pub mod Closing
pub mod Malformed
pub mod Kept
