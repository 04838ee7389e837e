-- ===== src/Lib.antt =====
-- GoSend, a peer-to-peer chat and file-transfer program: its wire protocol, its secure connections,
-- its text messages, the transfer of files, and the list of the devices that it discovers.
--
-- Two devices connect over TCP (network/client.go, network/server.go), prove who they are and agree
-- on a session key in a handshake, and from then on exchange encrypted frames on a connection
-- (network/connection.go). The peer manager (network/peer_manager.go) reads the messages of every
-- connection, checks and stores them in SQLite (storage/), answers them, and changes the session
-- key from time to time. Files are sent in chunks on the same connections (network/file_transfer.go).
-- A scanner (discovery/peer_scanner.go) finds the devices nearby. Other parts of the program (the
-- user interface, the configuration) are not modelled.
--
-- The parts and their code:
--   Base        lists, byte strings, maps, integers and Boolean tests that the parts share
--   Timestamp   network/peer_manager.go: withinTimestampSkew, with the arithmetic of time.Duration
--   Protocol    network/protocol.go: message types, limits, WriteFrame and ReadFrame on a stream of
--               bytes (Protocol/Frame)
--   Crypto      crypto/encryption.go, crypto/signatures.go, crypto/ecdh.go, and deriveSessionKey and
--               deriveRekeySessionKey of network/handshake.go (Crypto/Session)
--   Connection  network/connection.go: PeerConnection. State holds the fields and the operations
--               that neither send nor receive, Secure the encryption of payloads, Send SendRaw and
--               Disconnect, ReadLoop and KeepAlive the two goroutines, round by round
--   Handshake   network/handshake.go, network/client.go, network/server.go and the handshake
--               messages of network/protocol.go: Dial in two steps (answer_challenge, finish_dial)
--               and handleInboundConn after its challenge (serve)
--   Storage     storage/messages.go and storage/seen_ids.go as operations on lists of rows;
--               storage/peers.go as operations on maps from the primary key (Peers)
--   Messaging   network/peer_manager.go: handleIncomingEncryptedMessage (Receive), handleAck and
--               handleProtocolError (Ack), enforceQueueLimits (Limits), sendTextMessageWithID and
--               drainPendingMessages (Outgoing)
--   Rekey       network/peer_manager.go: onConnectionRekeyNeeded, initiateRekey (its two halves
--               around the wait), handleRekeyResponse (Initiate), handleRekeyRequest (Respond)
--   RateLimit   network/peer_manager.go: allowAddRequest and allowFileRequest;
--               network/server.go: allowInboundConnection (Inbound)
--   Endpoint    network/peer_manager.go: the endpoints of a peer, their scores and their order
--   Transfer    network/file_transfer.go: the transfers on their way in (Accept, Receive, Complete,
--               Finish), the chunks that the sender builds (Send), the queue of outbound transfers
--               (Queue); Storage/Files, Storage/Folders and Storage/Checkpoints are their tables
--   Discovery   discovery/peer_scanner.go: applySnapshot and emitEvent
--   Examples    the theorems at concrete inputs, with primitives and encodings made for them
--
-- How state is kept: each handler is a function from the state before to the state after. A
-- PeerConnection carries the bytes it wrote; a Session is a connection with the Node, which holds the
-- message table, the seen IDs and a log of what was reported. Locks and atomics of the source make
-- an operation one step, so an interleaving is a sequence of calls. One operation is taken whole
-- although the source lets go of its lock in between: startNextQueuedTransfer, whose rounds run here
-- with no other goroutine at the queue. Clocks are natural numbers of
-- nanoseconds or milliseconds that the functions take; int64 values that a peer chooses are
-- integers, uint64 values are natural numbers that wrap at 2 ^ 64. Go strings are lists of numbers.
--
-- What is a parameter: AES-256-GCM, Ed25519, X25519, HKDF, base64 and the random source are the
-- record Crypto.Primitives, JSON is Connection.Secure.Codec, Handshake.Sign.HandshakeWire,
-- Messaging.Session.Wire and the `marshal` of Rekey, and strconv.FormatUint is a function
-- `format_uint`. The laws that theorems assume of them are the records IsBase64, IsAead, IsRandom,
-- IsX25519, IsHkdf, IsCodec, IsHandshakeWire, IsRekeyWire and IsFormatUint; Examples has an instance
-- of each.
--
-- Loops are recursion on lists: read_loop on what the socket gives, drop_oldest and drain_list on
-- the queue of messages, start_queued on the queue of transfers. Only the loop over NextChunk
-- (Transfer/Receive: advance) runs on fuel, one more than the number of chunks; Transfer/Advance
-- shows that it ends before.
--
-- Not modelled of the parts above: deadlines and the capacity of the channels of a connection, the
-- accept loop, the adding and removing of peers over the network, reconnecting, the guards of
-- handleFileRequest, the sender's waiting for responses, folder transfers, the cancelling and
-- restoring of transfers, the reads for the user interface, the speed of a transfer, the tables of
-- key rotations and security events, and the payload of a security event (a log entry stands for
-- one).
pub mod Base
pub mod Timestamp
pub mod Protocol
pub mod Crypto
pub mod Connection
pub mod Handshake
pub mod Storage
pub mod Messaging
pub mod Transfer
pub mod Rekey
pub mod RateLimit
pub mod Discovery
pub mod Endpoint
pub mod Examples
