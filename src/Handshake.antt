-- ===== src/Handshake.antt =====
-- network/handshake.go, network/client.go and network/server.go: the handshake of two devices, from
-- the challenge to the connection. The socket gives and takes whole payloads here.
pub mod Options
pub mod Keys
pub mod Sign
pub mod Dial
pub mod Serve
pub mod Honest
pub mod Steps
pub mod Exchange
pub mod Trust
