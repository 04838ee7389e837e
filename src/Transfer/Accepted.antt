-- ===== src/Transfer/Accepted.antt =====
-- What an accepted request sets up, for the chunks to come.
use go_send.Base.{
  ℕ, ◌-◌, ◌<◌, ◌≡◌, refl, sym, ap, ◌∙◌, true, false, [], ◌++◌, none, some, Bytes, Text, codes,
  is_empty, length, replicate, length-take, length-append, Bool-cases, inl, inr, arith,
}
use mathlib.Core.Path.{subst}
use go_send.Base.Int.{pos}
use go_send.Base.Dict.{lookup, insert, lookup-insert_self}
use go_send.Crypto.{Primitives}
use go_send.Protocol.{FileRequest}
use go_send.Connection.State.{is_disconnected}
use go_send.Connection.Secure.{Codec}
use go_send.Storage.Files.{accepted, waiting, FileMetadata, get_file_by_id}
use go_send.Transfer.Chunks.{chunk_count, length-replicate}
use go_send.Transfer.Node.{OutboundFileTransfer, FileNode, FileSession, FileWire}
use go_send.Transfer.Receive.{set_inbound, maybe_persist_inbound_checkpoint}
use go_send.Transfer.Kept.{IsKept, respond-IsKept, maybe_persist-IsPersisted}
use go_send.Transfer.Complete.{mark_status}
use go_send.Transfer.Decisions.{clear_recent_file_decision}
use go_send.Transfer.Accept.{
  truncate, prepare_temp_file, request_row, new_inbound, set_node, save_row, send_response,
  start_inbound, accept_request, finalize_inbound_file_request,
}
use go_send.Transfer.Arrival.{IsAccepted}

-- Truncation sets the length.
length-truncate : (size : ℕ) (content : Bytes) → length (truncate size content) ≡ size
length-truncate size content =
    let pad : Bytes = replicate (size - length content) 0 in
    ground (
      arith,
      length-take size (content ++ pad),
      length-append content pad,
      length-replicate (size - length content) 0,
    )

module _ (p : Primitives) (c : Codec) (w : FileWire) where
  clear-fields :
      (id : Text) (node : FileNode)
      → let node' = clear_recent_file_decision id node in
        (node'.file_chunk_size ≡ node.file_chunk_size)
        × (node'.disk ≡ node.disk)
        × (node'.rows ≡ node.rows)
  unfolding clear_recent_file_decision
  clear-fields id node = ground arith

  save_row-IsKept : (row : FileMetadata) (s : FileSession) → IsKept s (save_row row s)
  unfolding save_row
  save_row-IsKept row s = ground arith

  send_response-IsKept :
      (now : ℕ) (id status : Text) (from : ℕ) (message : Text) (s : FileSession)
      → IsKept s (send_response p c w now id status from message s)
  unfolding send_response
  send_response-IsKept now id status from message s =
      elim (Bool-cases (is_disconnected s.conn.state)) [
        | inl e ↦
            rw (send_response, e)
              (record { inbound = refl; disk = refl; key = refl; peer_key = refl })
        | inr e ↦ rw (send_response, e) (respond-IsKept p c w now _ s)
      ]

  -- An accepted request leaves a transfer on its way in of which no chunk is there, with a temporary file of the announced
  -- size.
  pub start_inbound-IsAccepted :
      (out : OutboundFileTransfer) (file : Bytes) (now : ℕ) (r : FileRequest) (size : ℕ)
      (folder_id relative_path final_path : Text) (s : FileSession)
      → is_empty r.file_id ≡ false
      → s.node.disk.writable ≡ true
      → 0 < s.node.file_chunk_size
      → size ≡ length file
      → out.file_id ≡ r.file_id
      → out.chunk_size ≡ s.node.file_chunk_size
      → out.total_chunks ≡ chunk_count size out.chunk_size
      → IsAccepted p c w out file s.conn.session_key
          (new_inbound r size s.node.file_chunk_size final_path)
          (start_inbound p c w now r size folder_id relative_path final_path s)
  unfolding start_inbound prepare_temp_file mark_status
  start_inbound-IsAccepted out file now r size fid rel final s named wr pos_c sz oid ocs ot =
      let t = new_inbound r size s.node.file_chunk_size final in
      let old : Bytes = elim (lookup t.temp_path s.node.disk.files) [
        | none ↦ []
        | some content ↦ content
      ] in
      let disk = record s.node.disk {
        files = insert t.temp_path (truncate size old) s.node.disk.files;
      } in
      let s1 = set_inbound t (record s { node = record s.node { disk = disk } }) in
      let s2 = save_row (request_row r fid rel final waiting) s1 in
      let saved = save_row-IsKept (request_row r fid rel final waiting) s1 in
      let found =
        ap (lookup t.file_id) saved.inbound ∙ lookup-insert_self t.file_id t s.node.inbound in
      let kept = maybe_persist-IsPersisted p c w now t true s2 found in
      let s3 = mark_status r.file_id accepted (maybe_persist_inbound_checkpoint now t true s2) in
      let end = send_response-IsKept now r.file_id (codes "accepted") t.next_chunk [] s3 in
      let step : start_inbound p c w now r size fid rel final s
          ≡ send_response p c w now r.file_id (codes "accepted") t.next_chunk [] s3 =
        ground (arith, wr) in
      let kept_disk = end.disk ∙ (kept.disk ∙ saved.disk) in
      rw step (record {
        named = named;
        same_id = oid;
        same_size = ocs;
        same_total = ot ∙ ap (chunk_count size) ocs;
        pos_size = pos_c;
        total = ap (λ x. chunk_count x s.node.file_chunk_size) sz;
        u = kept.t';
        found = ap (lookup t.file_id) end.inbound ∙ kept.found;
        like = kept.same;
        empty = kept.received;
        content = truncate size old;
        stored =
            ap (λ x. lookup t.temp_path x.files) kept_disk
            ∙ lookup-insert_self t.temp_path (truncate size old) s.node.disk.files;
        same_length = length-truncate size old ∙ sz;
        writable = ap (λ x. x.writable) kept_disk ∙ wr;
        key_is = end.key ∙ (kept.key ∙ saved.key);
      })

  -- A file request that is accepted leaves a transfer on its way in as the chunks need it: none of
  -- them is there, the temporary file has the size of the sender's file, and both ends cut the file
  -- in the same way. The sender announced the size of its file and has the receiver's chunk size, the
  -- request's ID is new, and the disk takes writes.
  pub finalize_inbound_file_request-IsAccepted :
      (out : OutboundFileTransfer) (file : Bytes) (now : ℕ) (r : FileRequest)
      (folder_id relative_path final_path message : Text) (s : FileSession)
      → is_empty r.file_id ≡ false
      → get_file_by_id r.file_id s.node.rows ≡ none
      → s.node.disk.writable ≡ true
      → 0 < s.node.file_chunk_size
      → r.filesize ≡ pos (length file)
      → out.file_id ≡ r.file_id
      → out.chunk_size ≡ s.node.file_chunk_size
      → out.total_chunks ≡ chunk_count (length file) out.chunk_size
      → IsAccepted p c w out file s.conn.session_key
          (new_inbound r (length file) s.node.file_chunk_size final_path)
          (finalize_inbound_file_request p c w now r folder_id relative_path final_path true message
            s)
  unfolding finalize_inbound_file_request accept_request
  finalize_inbound_file_request-IsAccepted out file now r fid rel final message s named new wr pos_c
        sz oid ocs ot =
      let s' = set_node (clear_recent_file_decision r.file_id s.node) s in
      let kept = clear-fields r.file_id s.node in
      let begun =
        start_inbound-IsAccepted out file now r (length file) fid rel final s' named
          (ap (λ x. x.writable) kept.1 ∙ wr) (rw kept.0 pos_c) refl oid (ocs ∙ sym kept.0) ot in
      let step : finalize_inbound_file_request p c w now r fid rel final true message s
          ≡ start_inbound p c w now r (length file) fid rel final s' =
        ground (arith, kept.2, new, sz) in
      rw step (
        subst
          (λ x.
            IsAccepted p c w out file s.conn.session_key (new_inbound r (length file) x final)
              (start_inbound p c w now r (length file) fid rel final s'))
          kept.0 begun)
