-- ===== src/Messaging/Built.antt =====
-- A message as buildEncryptedMessage makes it: what it carries, and that the other end of the
-- connection verifies and opens it.
use go_send.Base.{
  ℕ, ◌+◌, ◌^◌, ◌<◌, ◌≡◌, true, false, [], some, Bytes, Text, codes, is_empty, length,
  is_empty-length, Option-cases, inl, inr, arith,
}
use go_send.Base.Int.{ℤ, is_zero}
use go_send.Crypto.{
  Primitives, IsBase64, IsAead, IsRandom, encrypt, decrypt, sign, verify, verify_signed,
  decode_peer_public_key,
}
use go_send.Protocol.{EncryptedMessage}
use go_send.Connection.State.{next_send_sequence}
use go_send.Connection.Secure.{Codec}
use go_send.Handshake.Options.{LocalIdentity}
use go_send.Handshake.Honest.{IsIdentity}
use go_send.Messaging.Session.{Wire, Session, sign_encrypted_message}
use go_send.Messaging.Receive.{verify_encrypted_message_signature}
use go_send.Messaging.Outgoing.{unsigned_message, build_encrypted_message}

-- json.Marshal of a message: it succeeds, and no payload is empty.
pub record IsMessageWire (w : Wire) : Type 0 where
  pub payload : EncryptedMessage → Bytes
  pub marshals : (m : EncryptedMessage) → w.marshal_message m ≡ some (payload m)
  pub non_empty : (m : EncryptedMessage) → is_empty (payload m) ≡ false

-- `there` is the other end of the connection of `here`, whose device is `i`: each end names the
-- other device, and they hold one session key.
pub record IsPaired (p : Primitives) (i : LocalIdentity) (here there : Session) : Type 0 where
  pub own_id : here.node.device_id ≡ i.device_id
  pub own_key : here.node.private_key ≡ i.ed25519_private_key
  pub to_peer : here.conn.peer_device_id ≡ there.node.device_id
  pub from_peer : there.conn.peer_device_id ≡ i.device_id
  pub peer_key : there.conn.peer_public_key ≡ p.b64_encode i.ed25519_public_key
  pub session_key : here.conn.session_key ≡ there.conn.session_key

module _ (p : Primitives) (c : Codec) (w : Wire) (base64 : IsBase64 p) (aead : IsAead p)
    (random : IsRandom p) (wire : IsMessageWire w) where
  -- What a built message carries.
  pub record IsBuilt (i : LocalIdentity) (id : Text) (content : Bytes) (timestamp : ℤ) (s : Session)
      (m : EncryptedMessage) : Type 0 where
    pub iv : Bytes
    pub iv_length : length iv ≡ 12
    pub key_length : length s.conn.session_key ≡ 32
    pub message_id : m.message_id ≡ id
    pub from_device : m.from_device_id ≡ s.node.device_id
    pub to_device : m.to_device_id ≡ s.conn.peer_device_id
    pub kind : m.content_type ≡ codes "text"
    pub sequence : m.sequence ≡ s.conn.send_sequence + 1
    pub encrypted : m.encrypted_content ≡ p.b64_encode (p.gcm_seal s.conn.session_key iv content)
    pub vector : m.iv ≡ p.b64_encode iv
    pub at : m.timestamp ≡ timestamp
    pub signature :
        m.signature
        ≡ p.b64_encode
            (p.ed25519_sign i.ed25519_private_key (wire.payload (record m { signature = [] })))

  pub build-IsBuilt :
      (i : LocalIdentity) (now : ℕ) (id : Text) (content : Bytes) (timestamp : ℤ) (s : Session)
      (m : EncryptedMessage)
      → s.node.private_key ≡ i.ed25519_private_key
      → s.conn.send_sequence + 1 < 2 ^ 64
      → is_zero timestamp ≡ false
      → (build_encrypted_message p c w now id content timestamp s).1 ≡ some m
      → IsBuilt i id content timestamp s m
  unfolding build_encrypted_message sign_encrypted_message encrypt sign next_send_sequence
      unsigned_message
  build-IsBuilt i now id content timestamp s m own bound z h =
      elim (Option-cases (p.read_random s.conn.draws)) [
        | inl e ↦ absurd (ground (arith, h, e))
        | inr (iv, e) ↦
            let seq = s.conn.send_sequence + 1 in
            let u =
              unsigned_message p c w now id timestamp (p.gcm_seal s.conn.session_key iv content) iv
                seq s in
            let marshalled = wire.marshals u in
            record {
              iv = iv;
              iv_length = random.nonce_length s.conn.draws iv e;
              key_length = ground (arith, h, e);
              message_id = ground (arith, h, e, marshalled);
              from_device = ground (arith, h, e, marshalled);
              to_device = ground (arith, h, e, marshalled);
              kind = ground (arith, h, e, marshalled);
              sequence = ground (arith, h, e, marshalled, bound);
              encrypted = ground (arith, h, e, marshalled);
              vector = ground (arith, h, e, marshalled);
              at = ground (arith, h, e, marshalled, z);
              signature = ground (arith, h, e, marshalled, own, bound);
            }
      ]

  -- The signature of a built message verifies at the other end.
  pub verify-IsBuilt :
      (i : LocalIdentity) (id : Text) (content : Bytes) (timestamp : ℤ) (here there : Session)
      (m : EncryptedMessage)
      → IsIdentity p i
      → IsPaired p i here there
      → IsBuilt i id content timestamp here m
      → verify_encrypted_message_signature p c w there.conn.peer_public_key m ≡ true
  unfolding verify_encrypted_message_signature verify_signed verify decode_peer_public_key
  verify-IsBuilt i id content timestamp here there m h l b =
      let raw = wire.payload (record m { signature = [] }) in
      let signature = p.ed25519_sign i.ed25519_private_key raw in
      ground (
        arith,
        l.peer_key,
        b.signature,
        h.public_length,
        h.signature_length raw,
        h.verifies raw,
        wire.marshals (record m { signature = [] }),
        wire.non_empty (record m { signature = [] }),
        base64.decode_encode i.ed25519_public_key,
        base64.decode_encode signature,
        base64.encode_non_empty signature (is_empty-length signature 63 (h.signature_length raw)),
      )

  -- Its content opens under the session key.
  pub decrypt-IsBuilt :
      (i : LocalIdentity) (id : Text) (content : Bytes) (timestamp : ℤ) (here : Session)
      (m : EncryptedMessage) (b : IsBuilt i id content timestamp here m)
      → decrypt p here.conn.session_key b.iv (p.gcm_seal here.conn.session_key b.iv content)
        ≡ some content
  unfolding decrypt
  decrypt-IsBuilt i id content timestamp here m b = ground (
    arith,
    b.iv_length,
    b.key_length,
    aead.open_seal here.conn.session_key b.iv content,
    aead.seal_tagged here.conn.session_key b.iv content b.key_length,
  )
