-- ===== src/Transfer/Send.antt =====
-- network/file_transfer.go: the chunks that runOutboundFileTransfer sends.
use go_send.Base.{ℕ, ◌+◌, ◌*◌, Option, none, some, Bytes, length}
use go_send.Base.Int.{pos}
use go_send.Crypto.{Primitives, encrypt}
use go_send.Protocol.{FileData}
use go_send.Connection.State.{PeerConnection}
use go_send.Messaging.Session.{unix_milli}
use go_send.Transfer.Chunks.{read_file_chunk}
use go_send.Transfer.Node.{OutboundFileTransfer}

module _ (p : Primitives) where
  -- The FileData of one attempt at a chunk of the source file: none is an error.
  unfoldable pub build_file_data :
      ℕ → OutboundFileTransfer → Bytes → ℕ → PeerConnection → PeerConnection × Option FileData
  build_file_data now t file chunk_index conn =
      elim (read_file_chunk file (chunk_index * t.chunk_size) t.chunk_size) [
        | none ↦ (conn, none)
        | some chunk ↦ (
          record conn { draws = conn.draws + 1 },
          elim (encrypt p conn.draws conn.session_key chunk) [
            | none ↦ none
            | some (ciphertext, iv) ↦ some (record {
              file_id = t.file_id;
              chunk_index = pos chunk_index;
              total_chunks = pos t.total_chunks;
              chunk_size = pos (length chunk);
              encrypted_data = p.b64_encode ciphertext;
              iv = p.b64_encode iv;
              timestamp = pos (unix_milli now);
            })
          ],
        )
      ]
