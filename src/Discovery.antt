-- ===== src/Discovery.antt =====
-- discovery/peer_scanner.go: the list of the peers that were discovered.
pub mod Snapshot
pub mod Replay
