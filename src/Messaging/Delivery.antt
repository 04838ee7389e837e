-- ===== src/Messaging/Delivery.antt =====
-- A message on its whole way: built by one device, received and stored by another.
use go_send.Base.{
  ℕ, ◌+◌, ◌^◌, ◌≤◌, ◌<◌, ◌≡◌, ◌∙◌, ap, refl, true, false, [], ◌∷◌, ◌++◌, none, some, Bytes, Text,
  codes, is_empty, text_eq_refl, arith,
}
use go_send.Base.Int.{ℤ, pos, is_zero}
use go_send.Timestamp.{within_timestamp_skew}
use go_send.Crypto.{Primitives, IsBase64, IsAead, IsRandom}
use go_send.Protocol.{EncryptedMessage}
use go_send.Connection.State.{validate_sequence}
use go_send.Connection.Secure.{Codec}
use go_send.Storage.Messages.{delivered, Message, done, is_content_type, find_message, save_message}
use go_send.Storage.Seen.{has_seen_id}
use go_send.Handshake.Options.{LocalIdentity}
use go_send.Handshake.Honest.{IsIdentity}
use go_send.Messaging.Node.{received, note}
use go_send.Messaging.Session.{Wire, Session, unix_milli}
use go_send.Messaging.Receive.{
  stored_message, mark_seen, store, open_content, check_seen, check_sequence, receive,
}
use go_send.Messaging.Opened.{acknowledge-tables, mark_seen-tables}
use go_send.Messaging.Outgoing.{build_encrypted_message}
use go_send.Messaging.Built.{
  IsMessageWire, IsPaired, IsBuilt, build-IsBuilt, verify-IsBuilt, decrypt-IsBuilt,
}

module _ (p : Primitives) (c : Codec) (w : Wire) (base64 : IsBase64 p) (aead : IsAead p)
    (random : IsRandom p) (wire : IsMessageWire w) where
  -- The row that a delivered message becomes.
  abbrev pub delivered_row : ℕ → EncryptedMessage → Bytes → Message
  delivered_row now m content = record {
    message_id = m.message_id;
    from_device_id = m.from_device_id;
    to_device_id = m.to_device_id;
    content = content;
    content_type = codes "text";
    timestamp_sent = m.timestamp;
    timestamp_received = some (unix_milli now);
    is_read = false;
    delivery_status = delivered;
    signature = m.signature;
  }

  store-fresh :
      (now : ℕ) (m : EncryptedMessage) (content : Bytes) (s : Session)
      → m.content_type ≡ codes "text"
      → is_empty m.message_id ≡ false
      → is_empty m.from_device_id ≡ false
      → is_empty m.to_device_id ≡ false
      → is_empty content ≡ false
      → is_zero m.timestamp ≡ false
      → find_message m.message_id s.node.messages ≡ none
      → s.node.has_peer m.from_device_id ≡ true
      → s.node.has_peer m.to_device_id ≡ true
      → (store p c w now m content s).node.messages
        ≡ s.node.messages ++ (delivered_row now m content ∷ [])
  unfolding store stored_message save_message is_content_type
  store-fresh now m content s k a b d e z f g h =
      let rows = s.node.messages ++ (delivered_row now m content ∷ []) in
      let saved : save_message s.node.has_peer (pos (unix_milli now))
            (stored_message p c w now m content) s.node.messages
          ≡ done rows =
        ground (arith, k, text_eq_refl (codes "text")) in
      let node = mark_seen p c w now m (record s.node { messages = rows }) in
      let marked = mark_seen-tables p c w now m (record s.node { messages = rows }) a in
      let row = stored_message p c w now m content in
      let kept = acknowledge-tables p c w now m (record s { node = note (received row) node }) in
      ground (arith, saved, marked, kept)

  open_content-IsBuilt :
      (i : LocalIdentity) (now : ℕ) (id : Text) (content : Bytes) (timestamp : ℤ)
      (here there : Session) (m : EncryptedMessage)
      → IsIdentity p i
      → IsPaired p i here there
      → IsBuilt p c w base64 aead random wire i id content timestamp here m
      → (s : Session) → s.conn.peer_public_key ≡ there.conn.peer_public_key
      → s.conn.session_key ≡ there.conn.session_key
      → open_content p c w now m s ≡ store p c w now m content s
  unfolding open_content
  open_content-IsBuilt i now id content timestamp here there m h l b s pk sk =
      let ct = p.gcm_seal here.conn.session_key b.iv content in
      ground (
        arith,
        b.encrypted,
        b.vector,
        pk,
        sk,
        l.session_key,
        verify-IsBuilt p c w base64 aead random wire i id content timestamp here there m h l b,
        decrypt-IsBuilt p c w base64 aead random wire i id content timestamp here m b,
        base64.decode_encode ct,
        base64.decode_encode b.iv,
      )

  -- The guards let a built message through.
  receive-IsBuilt :
      (i : LocalIdentity) (now : ℕ) (id : Text) (content : Bytes) (timestamp : ℤ)
      (here there : Session) (m : EncryptedMessage)
      → IsIdentity p i
      → IsPaired p i here there
      → IsBuilt p c w base64 aead random wire i id content timestamp here m
      → is_empty id ≡ false
      → is_empty there.node.device_id ≡ false
      → within_timestamp_skew now timestamp ≡ true
      → there.conn.last_seen_seq ≤ here.conn.send_sequence
      → has_seen_id id there.node.seen ≡ some false
      → receive p c w now m there
        ≡ open_content p c w now m
            (record there { conn = record there.conn { last_seen_seq = m.sequence } })
  unfolding receive check_sequence check_seen validate_sequence
  receive-IsBuilt i now id content timestamp here there m h l b n d t q seen = ground (
    arith,
    n,
    d,
    t,
    seen,
    l.own_id,
    l.to_peer,
    l.from_peer,
    h.has_id,
    b.message_id,
    b.from_device,
    b.to_device,
    b.sequence,
    b.at,
    text_eq_refl i.device_id,
    text_eq_refl there.node.device_id,
  )

  -- A message that a device builds for a connection and the other end receives is stored there with
  -- its ID, sender, content and time, as delivered, and nothing else changes in the table. The ends
  -- of the connection hold one session key, the receiver has seen no number above the sender's
  -- counter, the time is within the window, the ID is new and both devices are known peers.
  pub receive-build_encrypted_message :
      (i : LocalIdentity) (t now : ℕ) (id : Text) (content : Bytes) (timestamp : ℤ)
      (here there : Session) (m : EncryptedMessage)
      → IsIdentity p i
      → IsPaired p i here there
      → (build_encrypted_message p c w t id content timestamp here).1 ≡ some m
      → here.conn.send_sequence + 1 < 2 ^ 64
      → there.conn.last_seen_seq ≤ here.conn.send_sequence
      → is_zero timestamp ≡ false
      → within_timestamp_skew now timestamp ≡ true
      → is_empty id ≡ false
      → is_empty content ≡ false
      → is_empty there.node.device_id ≡ false
      → has_seen_id id there.node.seen ≡ some false
      → find_message id there.node.messages ≡ none
      → there.node.has_peer i.device_id ≡ true
      → there.node.has_peer there.node.device_id ≡ true
      → let row = delivered_row now m content in
        ((receive p c w now m there).node.messages ≡ there.node.messages ++ (row ∷ []))
        × (row.message_id ≡ id)
        × (row.from_device_id ≡ i.device_id)
        × (row.to_device_id ≡ there.node.device_id)
        × (row.timestamp_sent ≡ timestamp)
  receive-build_encrypted_message i t now id content timestamp here there m h l built bound q z time
        n ne d seen fresh pi pt =
      let b =
        build-IsBuilt p c w base64 aead random wire i t id content timestamp here m l.own_key bound
          z built in
      let s = record there { conn = record there.conn { last_seen_seq = m.sequence } } in
      let through = receive-IsBuilt i now id content timestamp here there m h l b n d time q seen in
      let opened = open_content-IsBuilt i now id content timestamp here there m h l b s refl refl in
      let from : m.from_device_id ≡ i.device_id = ground (arith, b.from_device, l.own_id) in
      let to : m.to_device_id ≡ there.node.device_id = ground (arith, b.to_device, l.to_peer) in
      let stored =
        store-fresh now m content s b.kind (rw b.message_id n) (rw from h.has_id) (rw to d) ne
          (rw b.at z) (rw b.message_id fresh) (rw from pi) (rw to pt) in
      (ap (λ x. x.node.messages) (through ∙ opened) ∙ stored, b.message_id, from, to, b.at)
