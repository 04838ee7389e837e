-- ===== src/Transfer/Arrival.antt =====
-- A file on its whole way: sent in chunks, received, checked and given its final name.
use go_send.Base.{
  ℕ, ◌<◌, ◌≡◌, ◌≢◌, refl, sym, ap, ◌∙◌, true, false, ◌||◌, List, [], ◌∷◌, none, some, Bytes, codes,
  is_empty, text_eq, text_eq_iff, text_eq_refl, equal_fold, has, length, map, All, arith,
}
use go_send.Base.Dict.{lookup, insert, delete, lookup-insert_self, lookup-insert, lookup-delete}
use go_send.Crypto.{Primitives, IsBase64, IsAead, IsRandom}
use go_send.Protocol.{FileData, FileComplete}
use go_send.Connection.State.{PeerConnection}
use go_send.Connection.Secure.{Codec}
use go_send.Transfer.Chunks.{chunk_count}
use go_send.Transfer.Node.{OutboundFileTransfer, InboundFileTransfer, FileSession, FileWire}
use go_send.Transfer.Receive.{handle_file_data}
use go_send.Transfer.Send.{build_file_data}
use go_send.Transfer.Kept.{IsLike}
use go_send.Transfer.Complete.{rename, verify_file_complete}
use go_send.Transfer.Finish.{FileSystem, accept_inbound, finalize_inbound, handle_file_complete}
use go_send.Transfer.Reassembly.{whole}
use go_send.Transfer.Verified.{accept_inbound-disk, accept_inbound-inbound}
use go_send.Transfer.Delivered.{
  IsReceiving, build_file_data-IsChunkOf, handle_file_data-IsReceiving,
}

-- One attempt of the sender at a chunk, and when its message is handled.
pub record Attempt : Type 0 where
  pub index : ℕ
  pub sent_at : ℕ
  pub sender : PeerConnection
  pub handled_at : ℕ
  pub message : FileData

-- The indices of the attempts, the last first.
abbrev gathered : List Attempt → List ℕ → List ℕ
gathered [] got = got
gathered (a ∷ rest) got = gathered rest (a.index ∷ got)

has-gathered :
    (k : ℕ) (attempts : List Attempt) (got : List ℕ)
    → (has k got || has k (map (λ a. a.index) attempts)) ≡ true
    → has k (gathered attempts got) ≡ true
has-gathered k [] got h = ground (arith, h)
has-gathered k (a ∷ rest) got h = has-gathered k rest (a.index ∷ got) (ground (arith, h))

module _ (p : Primitives) (c : Codec) (w : FileWire) where
  -- The messages handled one after the other.
  unfoldable pub handle_all : List Attempt → FileSession → FileSession
  handle_all [] s = s
  handle_all (a ∷ rest) s = handle_all rest (handle_file_data p c w a.handled_at a.message s)

  -- An attempt at a chunk of this file, under this session key.
  pub record IsAttempt (out : OutboundFileTransfer) (file key : Bytes) (a : Attempt) : Type 0 where
    pub in_file : a.index < out.total_chunks
    pub key_is : a.sender.session_key ≡ key
    pub built : (build_file_data p a.sent_at out file a.index a.sender).1 ≡ some a.message

  -- The two ends of one transfer, before the first chunk: the temporary file has the size of the
  -- file, and both ends cut it in the same way.
  pub record IsAccepted (out : OutboundFileTransfer) (file key : Bytes) (t : InboundFileTransfer)
      (s : FileSession) : Type 0 where
    pub named : is_empty t.file_id ≡ false
    pub same_id : out.file_id ≡ t.file_id
    pub same_size : out.chunk_size ≡ t.chunk_size
    pub same_total : out.total_chunks ≡ t.total_chunks
    pub pos_size : 0 < t.chunk_size
    pub total : t.total_chunks ≡ chunk_count (length file) t.chunk_size
    pub u : InboundFileTransfer
    pub found : lookup t.file_id s.node.inbound ≡ some u
    pub like : IsLike t u
    pub empty : u.received_chunks ≡ []
    pub content : Bytes
    pub stored : lookup t.temp_path s.node.disk.files ≡ some content
    pub same_length : length content ≡ length file
    pub writable : s.node.disk.writable ≡ true
    pub key_is : s.conn.session_key ≡ key

  module _ (base64 : IsBase64 p) (aead : IsAead p) (random : IsRandom p) where
    handle_all-IsReceiving :
        (out : OutboundFileTransfer) (file key : Bytes) (t : InboundFileTransfer) (s0 : FileSession)
        → IsAccepted out file key t s0
        → (attempts : List Attempt) (got : List ℕ) (s : FileSession)
        → All (IsAttempt out file key) attempts
        → IsReceiving file key s0.conn.peer_public_key t got s
        → IsReceiving file key s0.conn.peer_public_key t
            (gathered attempts got)
            (handle_all attempts s)
    unfolding handle_all
    handle_all-IsReceiving out file key t s0 h [] got s b r = r
    handle_all-IsReceiving out file key t s0 h (a ∷ rest) got s (b, bs) r =
        let m =
          build_file_data-IsChunkOf p c w base64 aead random a.sent_at out file a.index a.sender
            a.message b.built in
        let one =
          handle_file_data-IsReceiving p c w file key s0.conn.peer_public_key t got a.handled_at
            a.index a.message s h.named h.pos_size h.total (rw (sym h.same_total) b.in_file)
            (record {
              file_id = m.file_id ∙ h.same_id;
              at = m.at;
              opens = rw (sym b.key_is, sym h.same_size) m.opens;
            })
            r in
        handle_all-IsReceiving out file key t s0 h rest (a.index ∷ got)
          (handle_file_data p c w a.handled_at a.message s) bs one

    accepted-IsReceiving :
        (out : OutboundFileTransfer) (file key : Bytes) (t : InboundFileTransfer) (s : FileSession)
        → IsAccepted out file key t s
        → IsReceiving file key s.conn.peer_public_key t [] s
    accepted-IsReceiving out file key t s h = record {
      t = h.u;
      found = h.found;
      like = h.like;
      content = h.content;
      stored = h.stored;
      writable = h.writable;
      part = record {
        same_length = h.same_length;
        same = λ j e. absurd (ground (arith, e, h.empty));
      };
      covers = λ k e. absurd (ground (arith, e));
      key_is = h.key_is;
      peer_key_is = refl;
    }

    -- Every chunk of a file arrives, in any order and any number of times, and then the sender's
    -- signed file_complete: the file then stands under its final name, the temporary one is gone, and
    -- so is the transfer. The two ends cut the file in the same way and use one session key, and the
    -- checksum that the sender announced is that of the file.
    pub handle_all-arrives :
        (fs : FileSystem) (out : OutboundFileTransfer) (file key : Bytes) (t : InboundFileTransfer)
        (attempts : List Attempt) (now : ℕ) (m : FileComplete) (s : FileSession)
        → IsAccepted out file key t s
        → All (IsAttempt out file key) attempts
        → ((k : ℕ) → k < t.total_chunks → has k (map (λ a. a.index) attempts) ≡ true)
        → equal_fold (fs.checksum_hex file) t.checksum ≡ true
        → t.temp_path ≢ t.final_path
        → m.file_id ≡ t.file_id
        → m.status ≡ codes "complete"
        → verify_file_complete p c w s.conn.peer_public_key m ≡ true
        → let s2 = handle_file_complete p c w fs now m (handle_all attempts s) in
          (lookup t.final_path s2.node.disk.files ≡ some file)
          × (lookup t.temp_path s2.node.disk.files ≡ none)
          × (lookup t.file_id s2.node.inbound ≡ none)
    unfolding handle_file_complete finalize_inbound rename
    handle_all-arrives fs out file key t attempts now m s h b all sum apart id status signed =
        let s1 = handle_all attempts s in
        let r =
          handle_all-IsReceiving out file key t s h attempts [] s b
            (accepted-IsReceiving out file key t s h) in
        let every : (k : ℕ)
            → k < chunk_count (length file) t.chunk_size
            → has k r.t.received_chunks ≡ true =
          λ k less. r.covers k (has-gathered k attempts [] (all k (rw h.total less))) in
        let is_file =
          whole file t.chunk_size r.t.received_chunks r.content h.pos_size r.part every in
        let moved = insert t.final_path file (delete t.temp_path s1.node.disk.files) in
        let disk = record s1.node.disk { files = moved } in
        let s1' = record s1 { node = record s1.node { disk = disk } } in
        let step : handle_file_complete p c w fs now m s1 ≡ accept_inbound p c w fs now m r.t s1' =
          ground (
            arith,
            h.named,
            id,
            status,
            signed,
            r.peer_key_is,
            sum,
            is_file,
            r.found,
            r.stored,
            r.writable,
            r.like.temp_path,
            r.like.final_path,
            r.like.checksum,
            text_eq_refl (codes "complete"),
          ) in
        let distinct : text_eq t.final_path t.temp_path ≡ false =
          ground (arith, apart, text_eq_iff t.final_path t.temp_path) in
        let same_disk =
          ap (λ x. x.node.disk.files) step
          ∙ ap (λ x. x.files) (accept_inbound-disk p c w fs now m r.t s1') in
        let same_map =
          ap (λ x. x.node.inbound) step ∙ accept_inbound-inbound p c w fs now m r.t s1' in
        (
          ap (lookup t.final_path) same_disk
              ∙ lookup-insert_self t.final_path file (delete t.temp_path s1.node.disk.files),
          ap (lookup t.temp_path) same_disk
              ∙ ground (
                arith,
                distinct,
                text_eq_refl t.temp_path,
                lookup-insert t.final_path t.temp_path file (delete t.temp_path s1.node.disk.files),
                lookup-delete t.temp_path t.temp_path s1.node.disk.files,
              ),
          ap (lookup t.file_id) same_map
              ∙ ground (
                arith,
                id,
                text_eq_refl t.file_id,
                lookup-delete m.file_id t.file_id s1.node.inbound,
              ),
        )
