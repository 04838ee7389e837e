-- ===== src/Messaging/Opened.antt =====
-- What follows the checks of a received message: decoding, verifying, opening and storing.
use go_send.Base.{
  ℕ, ◌≡◌, ◌⊎◌, inl, inr, refl, true, false, some, Bytes, Text, if◌then◌else◌, is_empty,
  Option-cases, Bool-cases, arith, ◌==◌,
}
use go_send.Base.Int.{pos}
use go_send.Base.Dict.{lookup-insert_self}
use go_send.Crypto.{Primitives, decrypt}
use go_send.Protocol.{EncryptedMessage}
use go_send.Connection.Secure.{Codec}
use go_send.Storage.Messages.{Stored, StoreError, done, refused, save_message}
use go_send.Storage.Seen.{insert_seen_id, has_seen_id}
use go_send.Messaging.Node.{received, Node, note}
use go_send.Messaging.Session.{Wire, Session, unix_milli, send_error_message}
use go_send.Messaging.Receive.{
  verify_encrypted_message_signature, stored_message, acknowledge, mark_seen, store, open_content,
}

pub Stored-cases :
    {A : Type 0} (r : Stored A) → ((a : A) × (r ≡ done a)) ⊎ ((e : StoreError) × (r ≡ refused e))
Stored-cases (done a) = inl (a, refl)
Stored-cases (refused e) = inr (e, refl)

module _ (p : Primitives) (c : Codec) (w : Wire) where
  error-node :
      (now : ℕ) (code message related : Text) (s : Session)
      → (send_error_message p c w now code message related s).node ≡ s.node
  unfolding send_error_message
  error-node now code message related s = refl

  pub acknowledge-tables :
      (now : ℕ) (m : EncryptedMessage) (s : Session)
      → ((acknowledge p c w now m s).node.messages ≡ s.node.messages)
        × ((acknowledge p c w now m s).node.seen ≡ s.node.seen)
  unfolding acknowledge
  acknowledge-tables now m s = ground arith

  pub mark_seen-tables :
      (now : ℕ) (m : EncryptedMessage) (node : Node)
      → is_empty m.message_id ≡ false
      → ((mark_seen p c w now m node).messages ≡ node.messages)
        × (has_seen_id m.message_id (mark_seen p c w now m node).seen ≡ some true)
  unfolding mark_seen insert_seen_id has_seen_id
  mark_seen-tables now m node h =
      let at = if unix_milli now == 0 then unix_milli now else unix_milli now in
      ground (arith, h, lookup-insert_self m.message_id at node.seen)

  -- What follows a successful SaveMessage.
  store_lem :
      (now : ℕ) (m : EncryptedMessage) (plaintext : Bytes) (s : Session)
      → is_empty m.message_id ≡ false
      → let s' = store p c w now m plaintext s in
        (s'.node.messages ≡ s.node.messages)
        ⊎ ((save_message s.node.has_peer
                (pos (unix_milli now))
                (stored_message p c w now m plaintext)
                s.node.messages
              ≡ done s'.node.messages)
            × (has_seen_id m.message_id s'.node.seen ≡ some true))
  unfolding store
  store_lem now m plaintext s h =
      let row = stored_message p c w now m plaintext in
      elim (Stored-cases
        (save_message s.node.has_peer (pos (unix_milli now)) row s.node.messages)) [
          | inr (e, q) ↦ inl (ground (arith, q))
          | inl (rows, q) ↦
              let saved = record s.node { messages = rows } in
              let seen = mark_seen-tables now m saved h in
              let node = note (received row) (mark_seen p c w now m saved) in
              let kept = acknowledge-tables now m (record s { node = node }) in
              inr (ground (arith, q, seen, kept), ground (arith, q, seen, kept))
        ]

  -- What open_content adds.
  pub record IsOpened (now : ℕ) (m : EncryptedMessage) (s s' : Session) : Type 0 where
    pub signed : verify_encrypted_message_signature p c w s.conn.peer_public_key m ≡ true
    pub ciphertext : Bytes
    pub iv : Bytes
    pub plaintext : Bytes
    pub content : p.b64_decode m.encrypted_content ≡ some ciphertext
    pub vector : p.b64_decode m.iv ≡ some iv
    pub opened : decrypt p s.conn.session_key iv ciphertext ≡ some plaintext
    pub saved :
        save_message s.node.has_peer
          (pos (unix_milli now))
          (stored_message p c w now m plaintext)
          s.node.messages
        ≡ done s'.node.messages
    pub now_seen : has_seen_id m.message_id s'.node.seen ≡ some true

  -- The last branch: everything was decoded, verified and opened.
  IsOpened-store :
      (now : ℕ) (m : EncryptedMessage) (s : Session)
      → is_empty m.message_id ≡ false
      → (ciphertext iv plaintext : Bytes) → p.b64_decode m.encrypted_content ≡ some ciphertext
      → p.b64_decode m.iv ≡ some iv
      → verify_encrypted_message_signature p c w s.conn.peer_public_key m ≡ true
      → decrypt p s.conn.session_key iv ciphertext ≡ some plaintext
      → {s' : Session} → s' ≡ store p c w now m plaintext s
      → (s'.node.messages ≡ s.node.messages) ⊎ IsOpened now m s s'
  IsOpened-store now m s h ciphertext iv plaintext e f g d q =
      rw q (elim (store_lem now m plaintext s h) [
        | inl same ↦ inl same
        | inr (saved, seen) ↦ inr (record {
          signed = g;
          ciphertext = ciphertext;
          iv = iv;
          plaintext = plaintext;
          content = e;
          vector = f;
          opened = d;
          saved = saved;
          now_seen = seen;
        })
      ])

  -- The branches of open_content, with the parts named.
  pub open_content_lem :
      (now : ℕ) (m : EncryptedMessage) (s : Session)
      → is_empty m.message_id ≡ false
      → let s' = open_content p c w now m s in
        (s'.node.messages ≡ s.node.messages) ⊎ IsOpened now m s s'
  unfolding open_content send_error_message
  open_content_lem now m s h = elim (Option-cases (p.b64_decode m.encrypted_content)) [
    | inl e ↦ inl (ground (arith, e))
    | inr (ct, e) ↦ elim (Option-cases (p.b64_decode m.iv)) [
      | inl f ↦ inl (ground (arith, e, f))
      | inr (iv, f) ↦
          elim (Bool-cases (verify_encrypted_message_signature p c w s.conn.peer_public_key m)) [
            | inr g ↦ inl (ground (arith, e, f, g))
            | inl g ↦ elim (Option-cases (decrypt p s.conn.session_key iv ct)) [
              | inl d ↦ inl (ground (arith, e, f, g, d))
              | inr (plaintext, d) ↦
                  IsOpened-store now m s h ct iv plaintext e f g d (ground (arith, e, f, g, d))
            ]
          ]
    ]
  ]
