-- ===== src/Messaging/Genuine.antt =====
-- A received message is stored only if it is genuine, timely and new, and then exactly once.
use go_send.Base.{
  ℕ, ◌<◌, ◌≡◌, ◌⊎◌, ◌∙◌, inl, inr, true, false, not, ◌&&◌, ◌||◌, some, Bytes, is_empty, text_eq,
  text_eq_iff, Option-cases, Bool-cases, arith, leb,
}
use go_send.Base.Int.{pos}
use go_send.Timestamp.{within_timestamp_skew}
use go_send.Crypto.{Primitives, decrypt}
use go_send.Protocol.{EncryptedMessage}
use go_send.Connection.State.{validate_sequence}
use go_send.Connection.Secure.{Codec}
use go_send.Storage.Messages.{done, save_message}
use go_send.Storage.Seen.{has_seen_id}
use go_send.Messaging.Session.{Wire, Session, unix_milli, send_error_message}
use go_send.Messaging.Receive.{
  verify_encrypted_message_signature, stored_message, check_seen, check_sequence, receive,
}
use go_send.Messaging.Opened.{IsOpened, open_content_lem}

module _ (p : Primitives) (c : Codec) (w : Wire) where
  -- The evidence for a stored message: `s` before, `s'` after.
  pub record IsGenuine (now : ℕ) (m : EncryptedMessage) (s s' : Session) : Type 0 where
    pub sender : m.from_device_id ≡ s.conn.peer_device_id
    pub addressee : m.to_device_id ≡ s.node.device_id
    pub timely : within_timestamp_skew now m.timestamp ≡ true
    pub rising : s.conn.last_seen_seq < m.sequence
    pub unseen : has_seen_id m.message_id s.node.seen ≡ some false
    pub signed : verify_encrypted_message_signature p c w s.conn.peer_public_key m ≡ true
    pub ciphertext : Bytes
    pub iv : Bytes
    pub plaintext : Bytes
    pub content : p.b64_decode m.encrypted_content ≡ some ciphertext
    pub vector : p.b64_decode m.iv ≡ some iv
    pub opened : decrypt p s.conn.session_key iv ciphertext ≡ some plaintext
    pub saved :
        save_message s.node.has_peer
          (pos (unix_milli now))
          (stored_message p c w now m plaintext)
          s.node.messages
        ≡ done s'.node.messages
    pub now_seen : has_seen_id m.message_id s'.node.seen ≡ some true

  -- A result that is equal to that of a later stage has what the later stage gives.
  check_seen_lem :
      (now : ℕ) (m : EncryptedMessage) (s : Session)
      → is_empty m.message_id ≡ false
      → {s' : Session} → s' ≡ check_seen p c w now m s
      → (s'.node.messages ≡ s.node.messages)
        ⊎ ((has_seen_id m.message_id s.node.seen ≡ some false) × IsOpened p c w now m s s')
  unfolding check_seen
  check_seen_lem now m s h q = elim (Option-cases (has_seen_id m.message_id s.node.seen)) [
    | inl e ↦ inl (ground (arith, e, q))
    | inr (true, e) ↦ inl (ground (arith, e, q))
    | inr (false, e) ↦
        let q' = q ∙ ground (arith, e) in
        rw q' (elim (open_content_lem p c w now m s h) [ inl same ↦ inl same | inr o ↦ inr (e, o) ])
  ]

  check_sequence_lem :
      (now : ℕ) (m : EncryptedMessage) (s : Session)
      → is_empty m.message_id ≡ false
      → {s' : Session} → s' ≡ check_sequence p c w now m s
      → (s'.node.messages ≡ s.node.messages)
        ⊎ ((s.conn.last_seen_seq < m.sequence)
            × (has_seen_id m.message_id s.node.seen ≡ some false)
            × IsOpened p c w now m s s')
  unfolding check_sequence validate_sequence
  check_sequence_lem now m s h q = elim (Bool-cases (leb m.sequence s.conn.last_seen_seq)) [
    | inl e ↦ inl (ground (arith, e, q))
    | inr e ↦
        let t = record s { conn = record s.conn { last_seen_seq = m.sequence } } in
        elim (check_seen_lem now m t h (q ∙ ground (arith, e))) [
          | inl same ↦ inl same
          | inr (unseen, o) ↦ inr (
            ground (arith, e),
            unseen,
            record {
              signed = o.signed;
              ciphertext = o.ciphertext;
              iv = o.iv;
              plaintext = o.plaintext;
              content = o.content;
              vector = o.vector;
              opened = o.opened;
              saved = o.saved;
              now_seen = o.now_seen;
            },
          )
        ]
  ]

  -- The guards of receive: either nothing is stored, or all of them passed.
  receive-guards :
      (now : ℕ) (m : EncryptedMessage) (s : Session)
      → ((receive p c w now m s).node.messages ≡ s.node.messages)
        ⊎ ((is_empty m.message_id ≡ false)
            × (m.from_device_id ≡ s.conn.peer_device_id)
            × (m.to_device_id ≡ s.node.device_id)
            × (within_timestamp_skew now m.timestamp ≡ true)
            × (receive p c w now m s ≡ check_sequence p c w now m s))
  unfolding receive
  receive-guards now m s =
      let from = text_eq_iff m.from_device_id s.conn.peer_device_id in
      let to = text_eq_iff m.to_device_id s.node.device_id in
      elim (Bool-cases (
        not (is_empty m.message_id || is_empty m.from_device_id || is_empty m.to_device_id)
        && text_eq m.from_device_id s.conn.peer_device_id
        && text_eq m.to_device_id s.node.device_id
        && within_timestamp_skew now m.timestamp)) [
          | inr e ↦ inl (unfold send_error_message in ground (arith, e))
          | inl e ↦ inr (
            ground (arith, e),
            ground (arith, e, from),
            ground (arith, e, to),
            ground (arith, e),
            ground (arith, e),
          )
        ]

  -- A message changes the message table only if it names the connection's peer as its sender and
  -- this device as its addressee, its timestamp is within the window, its sequence number is above
  -- every one accepted before, its ID was not seen, its signature verifies under the peer's key and
  -- its content opens under the session key. Then exactly the one row with that content is added,
  -- and the ID is seen from then on. In every other case the table stays as it was.
  pub receive-IsGenuine :
      (now : ℕ) (m : EncryptedMessage) (s : Session)
      → let s' = receive p c w now m s in
        (s'.node.messages ≡ s.node.messages) ⊎ IsGenuine now m s s'
  receive-IsGenuine now m s = elim (receive-guards now m s) [
    | inl same ↦ inl same
    | inr (named, from, to, timely, q) ↦ elim (check_sequence_lem now m s named q) [
      | inl same ↦ inl same
      | inr (rising, unseen, o) ↦ inr (record {
        sender = from;
        addressee = to;
        timely = timely;
        rising = rising;
        unseen = unseen;
        signed = o.signed;
        ciphertext = o.ciphertext;
        iv = o.iv;
        plaintext = o.plaintext;
        content = o.content;
        vector = o.vector;
        opened = o.opened;
        saved = o.saved;
        now_seen = o.now_seen;
      })
    ]
  ]
