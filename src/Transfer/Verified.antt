-- ===== src/Transfer/Verified.antt =====
-- What handleFileComplete writes to the disk.
use go_send.Base.{
  ℕ, ◌≡◌, ◌⊎◌, inl, inr, refl, sym, ap, ◌∙◌, true, false, [], some, Bytes, Text, codes, is_empty,
  text_eq, equal_fold, Bool-cases, Option-cases, arith,
}
use go_send.Base.Dict.{lookup, insert, delete}
use go_send.Crypto.{Primitives}
use go_send.Protocol.{FileComplete}
use go_send.Connection.Secure.{Codec}
use go_send.Storage.Files.{TransferStatus, complete, failed}
use go_send.Storage.Checkpoints.{Direction, sending, receiving}
use go_send.Transfer.Node.{
  InboundFileTransfer, OutboundFileTransfer, reported, FileSession, log_file_event, FileWire,
}
use go_send.Transfer.Complete.{
  mark_status, mark_received_at, remove_inbound_transfer, remove_transfer_checkpoint, rename,
  send_file_complete, verify_file_complete, refuse_signature, end_inbound,
}
use go_send.Transfer.Finish.{
  FileSystem, record_canceled_before_approval, complete_late, complete_outbound, fail_inbound,
  accept_inbound, finalize_inbound, handle_file_complete,
}

module _ (p : Primitives) (c : Codec) (w : FileWire) (fs : FileSystem) where
  remove_transfer_checkpoint-inbound :
      (id : Text) (d : Direction) (s : FileSession)
      → (remove_transfer_checkpoint id d s).node.inbound ≡ s.node.inbound
  unfolding remove_transfer_checkpoint
  remove_transfer_checkpoint-inbound id d s = ground arith

  mark_received_at-inbound :
      (now : ℕ) (id : Text) (s : FileSession)
      → (mark_received_at now id s).node.inbound ≡ s.node.inbound
  unfolding mark_received_at
  mark_received_at-inbound now id s = ground arith

  send_file_complete-inbound :
      (now : ℕ) (id status message : Text) (s : FileSession)
      → (send_file_complete p c w now id status message s).node.inbound ≡ s.node.inbound
  unfolding send_file_complete
  send_file_complete-inbound now id status message s = ground arith

  -- The transfer leaves the map once it is accepted.
  pub accept_inbound-inbound :
      (now : ℕ) (m : FileComplete) (t : InboundFileTransfer) (s : FileSession)
      → (accept_inbound p c w fs now m t s).node.inbound ≡ delete m.file_id s.node.inbound
  unfolding accept_inbound mark_status
  accept_inbound-inbound now m t s =
      let s1 = mark_status m.file_id complete s in
      let s2 = remove_inbound_transfer m.file_id (mark_received_at now m.file_id s1) in
      let s3 = remove_transfer_checkpoint m.file_id receiving s2 in
      ground (
        arith,
        mark_received_at-inbound now m.file_id s1,
        remove_transfer_checkpoint-inbound m.file_id receiving s2,
        send_file_complete-inbound now m.file_id (codes "complete") [] s3,
      )

  remove_transfer_checkpoint-disk :
      (id : Text) (d : Direction) (s : FileSession)
      → (remove_transfer_checkpoint id d s).node.disk ≡ s.node.disk
  unfolding remove_transfer_checkpoint
  remove_transfer_checkpoint-disk id d s = ground arith

  mark_received_at-disk :
      (now : ℕ) (id : Text) (s : FileSession) → (mark_received_at now id s).node.disk ≡ s.node.disk
  unfolding mark_received_at
  mark_received_at-disk now id s = ground arith

  send_file_complete-disk :
      (now : ℕ) (id status message : Text) (s : FileSession)
      → (send_file_complete p c w now id status message s).node.disk ≡ s.node.disk
  unfolding send_file_complete
  send_file_complete-disk now id status message s = ground arith

  end_inbound-disk :
      (now : ℕ) (id : Text) (status : TransferStatus) (answer message : Text) (s : FileSession)
      → (end_inbound p c w now id status answer message s).node.disk ≡ s.node.disk
  unfolding end_inbound mark_status
  end_inbound-disk now id status answer message s =
      let s1 = remove_inbound_transfer id (mark_status id status s) in
      ground (
        arith,
        remove_transfer_checkpoint-disk id receiving s1,
        send_file_complete-disk now id answer message (remove_transfer_checkpoint id receiving s1),
      )

  complete_late-disk :
      (now : ℕ) (m : FileComplete) (o : OutboundFileTransfer) (s : FileSession)
      → (complete_late p c w fs now m o s).node.disk ≡ s.node.disk
  unfolding complete_late mark_status
  complete_late-disk now m o s =
      let o' = record o { done = true; running = false } in
      let s1 = record s {
        node = record s.node { outbound = insert m.file_id o' s.node.outbound };
      } in
      let s2 = mark_status o.file_id complete s1 in
      ground (
        arith,
        mark_received_at-disk now o.file_id s2,
        remove_transfer_checkpoint-disk o.file_id sending (mark_received_at now o.file_id s2),
      )

  record_canceled-disk :
      (m : FileComplete) (s : FileSession)
      → (record_canceled_before_approval p c w fs m s).node.disk ≡ s.node.disk
  unfolding record_canceled_before_approval mark_status
  record_canceled-disk m s = ground arith

  complete_outbound-disk :
      (now : ℕ) (m : FileComplete) (s : FileSession)
      → (complete_outbound p c w fs now m s).node.disk ≡ s.node.disk
  unfolding complete_outbound
  complete_outbound-disk now m s = elim (Option-cases (lookup m.file_id s.node.outbound)) [
    | inl e ↦ ground (arith, e, record_canceled-disk m s)
    | inr (o, e) ↦ ground (arith, e, record_canceled-disk m s, complete_late-disk now m o s)
  ]

  pub accept_inbound-disk :
      (now : ℕ) (m : FileComplete) (t : InboundFileTransfer) (s : FileSession)
      → (accept_inbound p c w fs now m t s).node.disk ≡ s.node.disk
  unfolding accept_inbound mark_status
  accept_inbound-disk now m t s =
      let s1 = mark_status m.file_id complete s in
      let s2 = remove_inbound_transfer m.file_id (mark_received_at now m.file_id s1) in
      let s3 = remove_transfer_checkpoint m.file_id receiving s2 in
      ground (
        arith,
        mark_received_at-disk now m.file_id s1,
        remove_transfer_checkpoint-disk m.file_id receiving s2,
        send_file_complete-disk now m.file_id (codes "complete") [] s3,
      )

  fail_inbound-disk :
      (now : ℕ) (m : FileComplete) (t : InboundFileTransfer) (s : FileSession)
      → (fail_inbound p c w fs now m t s).node.disk ≡ s.node.disk
  unfolding fail_inbound
  fail_inbound-disk now m t s = end_inbound-disk now m.file_id _ _ _ s

  -- A transfer got its final name: a signed completion named it, and the content has the checksum
  -- that was announced.
  pub record IsFinalized (m : FileComplete) (s s' : FileSession) : Type 0 where
    pub t : InboundFileTransfer
    pub content : Bytes
    pub found : lookup m.file_id s.node.inbound ≡ some t
    pub signed : verify_file_complete p c w s.conn.peer_public_key m ≡ true
    pub status : text_eq m.status (codes "complete") ≡ true
    pub stored : lookup t.temp_path s.node.disk.files ≡ some content
    pub checksum : equal_fold (fs.checksum_hex content) t.checksum ≡ true
    pub moved : rename t.temp_path t.final_path s.node.disk ≡ some s'.node.disk

  finalize_inbound-disk :
      (now : ℕ) (m : FileComplete) (t : InboundFileTransfer) (s : FileSession)
      → lookup m.file_id s.node.inbound ≡ some t
      → verify_file_complete p c w s.conn.peer_public_key m ≡ true
      → text_eq m.status (codes "complete") ≡ true
      → let s' = finalize_inbound p c w fs now m t s in
        (s'.node.disk ≡ s.node.disk) ⊎ IsFinalized m s s'
  unfolding finalize_inbound
  finalize_inbound-disk now m t s found signed status =
      elim (Option-cases (lookup t.temp_path s.node.disk.files)) [
        | inl e ↦ inl (
            rw (finalize_inbound, e)
              (end_inbound-disk now m.file_id failed (codes "failed")
                (codes "checksum verification failed") (log_file_event reported s)))
        | inr (content, e) ↦ elim (Bool-cases (equal_fold (fs.checksum_hex content) t.checksum)) [
          | inl k ↦ elim (Option-cases (rename t.temp_path t.final_path s.node.disk)) [
            | inl r ↦ inl (
                rw (finalize_inbound, e, k, r)
                  (end_inbound-disk now m.file_id failed (codes "failed")
                    (codes "finalize file failed") (log_file_event reported s)))
            | inr (disk, r) ↦ inr (record {
              t = t;
              content = content;
              found = found;
              signed = signed;
              status = status;
              stored = e;
              checksum = k;
              moved =
                  r
                  ∙ ap some (
                      sym (
                        rw (finalize_inbound, e, k, r)
                          (accept_inbound-disk now m t
                            (record s { node = record s.node { disk = disk } }))));
            })
          ]
          | inr k ↦ inl (
              rw (finalize_inbound, e, k)
                (end_inbound-disk now m.file_id failed (codes "failed") (codes "checksum mismatch")
                  s))
        ]
      ]

  -- A file_complete message leaves the disk as it is, or it gives a temporary file its final name;
  -- then the message is signed by the peer of the connection and says "complete", and the SHA-256 of
  -- the content is the checksum that the sender announced.
  pub handle_file_complete-IsFinalized :
      (now : ℕ) (m : FileComplete) (s : FileSession)
      → let s' = handle_file_complete p c w fs now m s in
        (s'.node.disk ≡ s.node.disk) ⊎ IsFinalized m s s'
  unfolding handle_file_complete refuse_signature
  handle_file_complete-IsFinalized now m s = elim (Bool-cases (is_empty m.file_id)) [
    | inl e ↦ inl (rw e refl)
    | inr e ↦ elim (Bool-cases (verify_file_complete p c w s.conn.peer_public_key m)) [
      | inr v ↦ inl (rw (e, v) refl)
      | inl v ↦ elim (Option-cases (lookup m.file_id s.node.inbound)) [
        | inl n ↦ inl (rw (e, v, n) (complete_outbound-disk now m s))
        | inr (t, n) ↦ elim (Bool-cases (text_eq m.status (codes "complete"))) [
          | inl k ↦ rw (e, v, n, k) (finalize_inbound-disk now m t s n v k)
          | inr k ↦ inl (rw (e, v, n, k) (fail_inbound-disk now m t s))
        ]
      ]
    ]
  ]
