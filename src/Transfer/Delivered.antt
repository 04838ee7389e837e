-- ===== src/Transfer/Delivered.antt =====
-- What handleFileData makes of the chunks that runOutboundFileTransfer sends.
use go_send.Base.{
  ℕ, ◌*◌, ◌<◌, ◌≡◌, ◌∙◌, refl, sym, ap, true, false, List, ◌∷◌, ==_iff, some, Bytes, Text, is_empty,
  has, length, take, drop, Bool-cases, Option-cases, inl, inr, arith,
}
use go_send.Base.Int.{pos}
use go_send.Base.Dict.{lookup, insert, lookup-insert_self}
use go_send.Crypto.{Primitives, IsBase64, IsAead, IsRandom, encrypt, decrypt}
use go_send.Protocol.{FileData}
use go_send.Connection.State.{PeerConnection}
use go_send.Connection.Secure.{Codec}
use go_send.Transfer.Chunks.{chunk_count, read_file_chunk, write_at, chunk_count_within}
use go_send.Transfer.Node.{OutboundFileTransfer, InboundFileTransfer, FileSession, FileWire}
use go_send.Transfer.Receive.{
  mark_received, opened, write_chunk, maybe_persist_inbound_checkpoint, open_chunk, record_chunk,
  handle_file_data, set_inbound,
}
use go_send.Transfer.Send.{build_file_data}
use go_send.Transfer.Reassembly.{IsPartOf, write_at-IsPartOf}
use go_send.Transfer.Kept.{
  IsLike, IsLike-refl, IsLike-trans, IsPersisted, acknowledge_chunk-IsKept,
  maybe_persist-IsPersisted,
}

-- The transfer `t0` on its way in, on the connection with this key: what is there of the file. `got`
-- are indices of chunks that arrived.
pub record IsReceiving (file key : Bytes) (peer_key : Text) (t0 : InboundFileTransfer)
    (got : List ℕ) (s : FileSession) : Type 0 where
  pub t : InboundFileTransfer
  pub found : lookup t0.file_id s.node.inbound ≡ some t
  pub like : IsLike t0 t
  pub content : Bytes
  pub stored : lookup t0.temp_path s.node.disk.files ≡ some content
  pub writable : s.node.disk.writable ≡ true
  pub part : IsPartOf file t0.chunk_size t.received_chunks content
  pub covers : (k : ℕ) → has k got ≡ true → has k t.received_chunks ≡ true
  pub key_is : s.conn.session_key ≡ key
  pub peer_key_is : s.conn.peer_public_key ≡ peer_key

-- Marking a chunk that was written.
mark_received-IsPartOf :
    (file : Bytes) (chunk_size index size : ℕ) (t : InboundFileTransfer) (content : Bytes)
    → IsPartOf file chunk_size (index ∷ t.received_chunks) content
    → IsPartOf file chunk_size (mark_received index size t).received_chunks content
unfolding mark_received
mark_received-IsPartOf file c index size t content h =
    elim (Bool-cases (has index t.received_chunks)) [
      | inl e ↦
          rw e (record { same_length = h.same_length; same = λ j a. h.same j (ground (arith, a)) })
      | inr e ↦ rw e h
    ]

has-mark_received :
    (index size k : ℕ) (t : InboundFileTransfer)
    → has k (mark_received index size t).received_chunks ≡ has k (index ∷ t.received_chunks)
unfolding mark_received
has-mark_received index size k t = ground (arith, ==_iff index k)

mark_received-IsLike :
    (index size : ℕ) (t : InboundFileTransfer) → IsLike t (mark_received index size t)
unfolding mark_received
mark_received-IsLike index size t = elim (Bool-cases (has index t.received_chunks)) [
  | inl e ↦ rw e (IsLike-refl t)
  | inr e ↦ rw e (record {
    file_id = refl;
    chunk_size = refl;
    total_chunks = refl;
    temp_path = refl;
    final_path = refl;
    checksum = refl;
  })
]

module _ (p : Primitives) (c : Codec) (w : FileWire) where
  -- The chunk that the message carries opens.
  pub record IsChunkOf (file key : Bytes) (chunk_size : ℕ) (id : Text) (index : ℕ) (d : FileData)
      : Type 0 where
    pub file_id : d.file_id ≡ id
    pub at : d.chunk_index ≡ pos index
    pub opens : open_chunk p c w key d ≡ opened (take chunk_size (drop (index * chunk_size) file))

  pub build_file_data-IsChunkOf :
      (base64 : IsBase64 p) (aead : IsAead p) (random : IsRandom p) (now : ℕ)
      (out : OutboundFileTransfer) (file : Bytes) (index : ℕ) (conn : PeerConnection) (d : FileData)
      → (build_file_data p now out file index conn).1 ≡ some d
      → IsChunkOf file conn.session_key out.chunk_size out.file_id index d
  unfolding build_file_data read_file_chunk encrypt decrypt open_chunk
  build_file_data-IsChunkOf base64 aead random now out file index conn d h =
      let chunk = take out.chunk_size (drop (index * out.chunk_size) file) in
      elim (Option-cases (p.read_random conn.draws)) [
        | inl e ↦ absurd (ground (arith, h, e))
        | inr (iv, e) ↦
            let iv_length = random.nonce_length conn.draws iv e in
            let sealed = p.gcm_seal conn.session_key iv chunk in
            record {
              file_id = ground (arith, h, e);
              at = ground (arith, h, e);
              opens = ground (
                arith,
                h,
                e,
                iv_length,
                base64.decode_encode iv,
                base64.decode_encode sealed,
                aead.open_seal conn.session_key iv chunk,
                aead.seal_tagged conn.session_key iv chunk,
              );
            }
      ]

  -- What follows the write keeps the transfer, with the chunk marked, and the file.
  record_chunk-IsPersisted :
      (now : ℕ) (d : FileData) (t : InboundFileTransfer) (index size : ℕ) (s : FileSession)
      → IsPersisted (mark_received index size t) s (record_chunk p c w now d t index size s)
  unfolding record_chunk
  record_chunk-IsPersisted now d t index size s =
      let t' = mark_received index size t in
      let s' = set_inbound t' s in
      let stored =
        maybe_persist-IsPersisted p c w now t' false s'
          (lookup-insert_self t'.file_id t' s.node.inbound) in
      let kept =
        acknowledge_chunk-IsKept p c w now d t'
          (maybe_persist_inbound_checkpoint now t' false s') in
      record {
        t' = stored.t';
        found = ap (lookup t'.file_id) kept.inbound ∙ stored.found;
        same = stored.same;
        received = stored.received;
        disk = kept.disk ∙ stored.disk;
        key = kept.key ∙ stored.key;
        peer_key = kept.peer_key ∙ stored.peer_key;
      }

  -- One chunk of the file more.
  pub handle_file_data-IsReceiving :
      (file key : Bytes) (peer_key : Text) (t0 : InboundFileTransfer) (got : List ℕ) (now index : ℕ)
      (d : FileData) (s : FileSession)
      → is_empty t0.file_id ≡ false
      → 0 < t0.chunk_size
      → t0.total_chunks ≡ chunk_count (length file) t0.chunk_size
      → index < t0.total_chunks
      → IsChunkOf file key t0.chunk_size t0.file_id index d
      → IsReceiving file key peer_key t0 got s
      → IsReceiving file key peer_key t0 (index ∷ got) (handle_file_data p c w now d s)
  unfolding handle_file_data write_chunk
  handle_file_data-IsReceiving file key peer_key t0 got now index d s named pos_size total within m
        r =
      let size = t0.chunk_size in
      let path = t0.temp_path in
      let chunk = take size (drop (index * size) file) in
      let t = r.t in
      let content = write_at r.content chunk (index * size) in
      let disk = record s.node.disk { files = insert path content s.node.disk.files } in
      let s1 = record s { node = record s.node { disk = disk } } in
      let step : handle_file_data p c w now d s
          ≡ record_chunk p c w now d t index (length chunk) s1 =
        ground (
          arith, named, within, m.file_id, m.at, m.opens, r.found, r.key_is, r.like.total_chunks,
          r.like.chunk_size, r.like.temp_path, r.stored, r.writable,
        ) in
      let t' = mark_received index (length chunk) t in
      let marked = IsLike-trans t0 t t' r.like (mark_received-IsLike index (length chunk) t) in
      let end = record_chunk-IsPersisted now d t index (length chunk) s1 in
      let counted : index < chunk_count (length file) size = omega arith in
      let part = mark_received-IsPartOf file size index (length chunk) t content (
        write_at-IsPartOf file size index t.received_chunks r.content pos_size
          (chunk_count_within (length file) size index pos_size counted) r.part) in
      let s2 = record_chunk p c w now d t index (length chunk) s1 in
      rw step (record {
        t = end.t';
        found = ap (λ x. lookup x s2.node.inbound) (sym marked.file_id) ∙ end.found;
        like = IsLike-trans t0 t' end.t' marked end.same;
        content = content;
        stored =
            ap (λ x. lookup path x.files) end.disk
            ∙ lookup-insert_self path content s.node.disk.files;
        writable = ap (λ x. x.writable) end.disk ∙ r.writable;
        part = rw end.received part;
        covers = λ k h.
            ground (arith, h, r.covers k, end.received, has-mark_received index (length chunk) k t);
        key_is = end.key ∙ r.key_is;
        peer_key_is = end.peer_key ∙ r.peer_key_is;
      })
