-- ===== src/Transfer/Kept.antt =====
-- What a response and a checkpoint leave alone.
use go_send.Base.{ℕ, ◌≡◌, ◌∙◌, refl, Bool, some, Bool-cases, Option-cases, inl, inr, arith}
use go_send.Base.Dict.{lookup, lookup-insert_self}
use go_send.Crypto.{Primitives}
use go_send.Protocol.{FileResponse, FileData}
use go_send.Connection.Secure.{Codec}
use go_send.Connection.Kept.{send_message-HasSameSession}
use go_send.Transfer.Node.{
  InboundFileTransfer, FileSession, FileWire, deliver, respond, sign_file_response,
}
use go_send.Transfer.Receive.{
  chunk_ack, acknowledge_chunk, is_inbound_due, persist_inbound_checkpoint,
  maybe_persist_inbound_checkpoint,
}

-- The same transfer, of which other chunks may have arrived.
pub record IsLike (t t' : InboundFileTransfer) : Type 0 where
  pub file_id : t'.file_id ≡ t.file_id
  pub chunk_size : t'.chunk_size ≡ t.chunk_size
  pub total_chunks : t'.total_chunks ≡ t.total_chunks
  pub temp_path : t'.temp_path ≡ t.temp_path
  pub final_path : t'.final_path ≡ t.final_path
  pub checksum : t'.checksum ≡ t.checksum

pub IsLike-refl : (t : InboundFileTransfer) → IsLike t t
IsLike-refl t = record {
  file_id = refl;
  chunk_size = refl;
  total_chunks = refl;
  temp_path = refl;
  final_path = refl;
  checksum = refl;
}

pub IsLike-trans : (t u v : InboundFileTransfer) → IsLike t u → IsLike u v → IsLike t v
IsLike-trans t u v a b = record {
  file_id = b.file_id ∙ a.file_id;
  chunk_size = b.chunk_size ∙ a.chunk_size;
  total_chunks = b.total_chunks ∙ a.total_chunks;
  temp_path = b.temp_path ∙ a.temp_path;
  final_path = b.final_path ∙ a.final_path;
  checksum = b.checksum ∙ a.checksum;
}

-- What responding leaves alone.
pub record IsKept (s s' : FileSession) : Type 0 where
  pub inbound : s'.node.inbound ≡ s.node.inbound
  pub disk : s'.node.disk ≡ s.node.disk
  pub key : s'.conn.session_key ≡ s.conn.session_key
  pub peer_key : s'.conn.peer_public_key ≡ s.conn.peer_public_key

-- A session in which the transfer is stored as `t` but for its checkpoint.
pub record IsPersisted (t : InboundFileTransfer) (s s' : FileSession) : Type 0 where
  pub t' : InboundFileTransfer
  pub found : lookup t.file_id s'.node.inbound ≡ some t'
  pub same : IsLike t t'
  pub received : t'.received_chunks ≡ t.received_chunks
  pub disk : s'.node.disk ≡ s.node.disk
  pub key : s'.conn.session_key ≡ s.conn.session_key
  pub peer_key : s'.conn.peer_public_key ≡ s.conn.peer_public_key

module _ (p : Primitives) (c : Codec) (w : FileWire) where
  deliver-IsKept :
      (now : ℕ) (signed : FileResponse) (s : FileSession) → IsKept s (deliver p c w now signed s)
  unfolding deliver
  deliver-IsKept now signed s =
      let kept = send_message-HasSameSession p c now (w.marshal_response signed) s.conn in
      ground (arith, kept.key, kept.peer_key)

  pub respond-IsKept :
      (now : ℕ) (r : FileResponse) (s : FileSession) → IsKept s (respond p c w now r s)
  unfolding respond
  respond-IsKept now r s = elim (Option-cases (sign_file_response p c w s.node.private_key r)) [
    | inl e ↦ rw (respond, e) (record { inbound = refl; disk = refl; key = refl; peer_key = refl })
    | inr (signed, e) ↦
        let kept = deliver-IsKept now signed s in
        rw (respond, e)
          (record {
            inbound = kept.inbound;
            disk = kept.disk;
            key = kept.key;
            peer_key = kept.peer_key;
          })
  ]

  pub acknowledge_chunk-IsKept :
      (now : ℕ) (d : FileData) (t : InboundFileTransfer) (s : FileSession)
      → IsKept s (acknowledge_chunk p c w now d t s)
  unfolding acknowledge_chunk
  acknowledge_chunk-IsKept now d t s =
      elim (Option-cases
        (sign_file_response p c w s.node.private_key (chunk_ack now d s.node.device_id))) [
          | inl e ↦
              rw (acknowledge_chunk, e)
                (record { inbound = refl; disk = refl; key = refl; peer_key = refl })
          | inr (signed, e) ↦
              let kept = deliver-IsKept now signed s in
              rw (acknowledge_chunk, e)
                (record {
                  inbound = kept.inbound;
                  disk = kept.disk;
                  key = kept.key;
                  peer_key = kept.peer_key;
                })
        ]

  persist-IsPersisted :
      (now : ℕ) (t : InboundFileTransfer) (s : FileSession)
      → IsPersisted t s (persist_inbound_checkpoint now t s)
  unfolding persist_inbound_checkpoint
  persist-IsPersisted now t s =
      let t' = record t { checkpoint_chunk = t.next_chunk; checkpoint_bytes = t.bytes_received } in
      let found = lookup-insert_self t.file_id t' s.node.inbound in
      record {
        t' = t';
        found = ground (arith, found);
        same = record {
          file_id = refl;
          chunk_size = refl;
          total_chunks = refl;
          temp_path = refl;
          final_path = refl;
          checksum = refl;
        };
        received = refl;
        disk = ground arith;
        key = ground arith;
        peer_key = ground arith;
      }

  pub maybe_persist-IsPersisted :
      (now : ℕ) (t : InboundFileTransfer) (force : Bool) (s : FileSession)
      → lookup t.file_id s.node.inbound ≡ some t
      → IsPersisted t s (maybe_persist_inbound_checkpoint now t force s)
  unfolding maybe_persist_inbound_checkpoint
  maybe_persist-IsPersisted now t force s h = elim (Bool-cases (is_inbound_due force t)) [
    | inl e ↦ rw e (persist-IsPersisted now t s)
    | inr e ↦ rw e (record {
      t' = t;
      found = h;
      same = IsLike-refl t;
      received = refl;
      disk = refl;
      key = refl;
      peer_key = refl;
    })
  ]
