-- ===== src/Connection/Malformed.antt =====
-- What readLoop does with frames: delivery, oversized frames, and the limit on malformed ones.
use go_send.Base.{
  ℕ, List, All, ◌&&◌, ◌+◌, ◌<◌, ◌≡◌, refl, Bool, true, false, not, [], ◌∷◌, ◌++◌, Option, none,
  some, Bytes, Text, arith, if◌then◌else◌, length, is_empty, text_eq, leb, ◌||◌, Option-cases,
  Bool-cases, ap, ◌∙◌, inl, inr,
}
use go_send.Crypto.{Primitives, IsBase64, IsAead, IsRandom, encrypt}
use go_send.Protocol.{
  type_ping, type_pong, type_peer_disconnect, type_file_data, decode_message_type,
}
use go_send.Connection.State.{
  malformed, oversized, ready, disconnected, PeerConnection, close_with_error,
}
use go_send.Connection.Secure.{
  Codec, IsCodec, encrypt_payload, decrypt_payload, key_for_epoch, secure_frame_type,
}
use go_send.Connection.ReadLoop.{ReadEvent, frame, Reader, read_round, read_loop}
use go_send.Connection.Epoch.{decrypt_payload-encrypt_payload}

-- The types that readLoop handles itself.
abbrev pub is_internal : Text → Bool
is_internal t = text_eq t type_ping || text_eq t type_pong || text_eq t type_peer_disconnect

module _ (p : Primitives) (c : Codec) where
  decrypt_payload-touch :
      (now : ℕ) (pc : PeerConnection) (bytes : Bytes)
      → decrypt_payload p c (record pc { last_activity = now }) bytes ≡ decrypt_payload p c pc bytes
  unfolding decrypt_payload key_for_epoch
  decrypt_payload-touch now pc bytes = refl

  -- What counts as malformed: a frame that cannot be opened, and a content of at most 64 KB that
  -- has no message type.
  abbrev pub is_malformed : PeerConnection → Bytes → Bool
  is_malformed pc bytes = elim (decrypt_payload p c pc bytes) [
    | none ↦ not (is_empty bytes)
    | some payload ↦
        not (is_empty bytes)
        && not (is_empty payload)
        && leb (length payload) 65_536
        && (elim (decode_message_type c.envelope payload) [ none ↦ true | some t ↦ false ])
  ]

  -- One malformed frame.
  malformed_round :
      (now : ℕ) (pong : Option Bytes) (bytes : Bytes) (r : Reader)
      → r.running ≡ true
      → r.conn.closed ≡ false
      → is_malformed r.conn bytes ≡ true
      → let conn = record r.conn { last_activity = now } in
        let n = r.malformed_frames + 1 in
        read_round p c now pong (frame bytes) r ≡ (
          if leb 3 n
          then record {
            conn = close_with_error (some (malformed n)) conn;
            malformed_frames = n;
            running = false;
          }
          else record { conn = conn; malformed_frames = n; running = true })
  unfolding read_round
  malformed_round now pong bytes r h k m = elim (Option-cases (decrypt_payload p c r.conn bytes)) [
    | inl d ↦ ground (arith, decrypt_payload-touch now r.conn bytes, d)
    | inr (payload, d) ↦ elim (Option-cases (decode_message_type c.envelope payload)) [
      | inl e ↦ ground (arith, decrypt_payload-touch now r.conn bytes, d, e)
      | inr (t, e) ↦ absurd (ground (arith, d, e, m))
    ]
  ]

  stopped_round :
      (now : ℕ) (pong : Option Bytes) (event : ReadEvent) (r : Reader)
      → r.running ≡ false
      → read_round p c now pong event r ≡ r
  unfolding read_round
  stopped_round now pong event r h = ground (arith, h)

  stopped_loop :
      (events : List (ℕ × Option Bytes × ReadEvent)) (r : Reader)
      → r.running ≡ false
      → read_loop p c events r ≡ r
  unfolding read_loop
  stopped_loop [] r h = refl
  stopped_loop ((now, pong, event) ∷ events) r h =
      ap (read_loop p c events) (stopped_round now pong event r h) ∙ stopped_loop events r h

  -- What is malformed does not depend on the time of the last activity.
  malformed-touch :
      (now : ℕ) (conn : PeerConnection) (frames : List (ℕ × Option Bytes × Bytes))
      → All (λ f. is_malformed conn f.2 ≡ true) frames
      → All (λ f. is_malformed (record conn { last_activity = now }) f.2 ≡ true) frames
  unfolding decrypt_payload key_for_epoch
  malformed-touch now conn frames h = h

  -- Frames that arrive one after the other, with the time and the reply to a ping.
  abbrev pub as_events : List (ℕ × Option Bytes × Bytes) → List (ℕ × Option Bytes × ReadEvent)
  as_events [] = []
  as_events ((now, pong, bytes) ∷ frames) = (now, pong, frame bytes) ∷ as_events frames

  -- On an open connection with fewer than three malformed frames counted, frames arrive that cannot
  -- be opened, or whose content is at most 64 KB and has no message type. However many there are, the
  -- loop goes on as long as the count stays below three; the third closes the connection with that
  -- reason and ends the loop. None of them is delivered.
  pub read_loop-malformed :
      (frames : List (ℕ × Option Bytes × Bytes)) (r : Reader)
      → r.running ≡ true
      → r.conn.closed ≡ false
      → r.malformed_frames < 3
      → All (λ f. is_malformed r.conn f.2 ≡ true) frames
      → let r' = read_loop p c (as_events frames) r in
        let third = leb 3 (r.malformed_frames + length frames) in
        (r'.running ≡ not third)
        × (r'.conn.closed ≡ third)
        × (r'.conn.close_err ≡ (if third then some (malformed 3) else r.conn.close_err))
        × (r'.conn.inbound ≡ r.conn.inbound)
  unfolding read_loop close_with_error
  read_loop-malformed [] r h k l m = ground (arith, h, k, l)
  read_loop-malformed ((now, pong, bytes) ∷ frames) r h k l (m, ms) =
      let events = as_events frames in
      let conn = record r.conn { last_activity = now } in
      let n = r.malformed_frames + 1 in
      let round = malformed_round now pong bytes r h k m in
      elim (Bool-cases (leb 3 n)) [
        | inl e ↦
            let ended : Reader = record {
              conn = close_with_error (some (malformed n)) conn;
              malformed_frames = n;
              running = false;
            } in
            let eq : read_round p c now pong (frame bytes) r ≡ ended = round ∙ rw e refl in
            let all = ap (read_loop p c events) eq ∙ stopped_loop events ended refl in
            rw all (ground (arith, e, k, l))
        | inr e ↦
            let next : Reader = record { conn = conn; malformed_frames = n; running = true } in
            let eq : read_round p c now pong (frame bytes) r ≡ next = round ∙ rw e refl in
            let rest =
              read_loop-malformed frames next refl k (ground (arith, e))
                (malformed-touch now r.conn frames ms) in
            rw (ap (read_loop p c events) eq) (ground (arith, rest, e, l))
      ]

  encrypt_payload-non_empty :
      (codec : IsCodec c) (sender : PeerConnection) (payload bytes : Bytes)
      → encrypt_payload p c sender payload ≡ some bytes
      → is_empty bytes ≡ false
  unfolding encrypt_payload
  encrypt_payload-non_empty codec sender payload bytes h =
      elim (Option-cases (encrypt p sender.draws sender.session_key payload)) [
        | inl e ↦ absurd (ground arith)
        | inr (ct, e) ↦
            codec.marshal_non_empty
              (record {
                frame_type = secure_frame_type;
                epoch = sender.session_epoch;
                nonce = p.b64_encode ct.1;
                ciphertext = p.b64_encode ct.0;
              })
              bytes (ground arith)
      ]

  -- A connection is open and holds the key of the sender's epoch, and a frame arrives that the
  -- sender made of a non-empty payload with a message type other than ping, pong and
  -- peer_disconnect. If the type is file_data or the payload is at most 64 KB, it is appended to the
  -- inbound queue and the count of malformed frames starts again; otherwise the connection is closed
  -- as oversized, and nothing is delivered.
  pub read_round-delivers :
      (base64 : IsBase64 p) (aead : IsAead p) (random : IsRandom p) (codec : IsCodec c) (now : ℕ)
      (pong : Option Bytes) (sender : PeerConnection) (bytes payload t : Bytes) (r : Reader)
      → r.running ≡ true
      → r.conn.closed ≡ false
      → encrypt_payload p c sender payload ≡ some bytes
      → key_for_epoch r.conn sender.session_epoch ≡ some sender.session_key
      → is_empty payload ≡ false
      → decode_message_type c.envelope payload ≡ some t
      → is_internal t ≡ false
      → let r' = read_round p c now pong (frame bytes) r in
        let fits = text_eq t type_file_data || leb (length payload) 65_536 in
        (r'.running ≡ fits)
        × (r'.conn.closed ≡ not fits)
        × (r'.conn.close_err ≡ (if fits then r.conn.close_err else some oversized))
        × (r'.conn.state ≡ (if fits then ready else disconnected))
        × (r'.malformed_frames ≡ (if fits then 0 else r.malformed_frames))
        × (r'.conn.inbound ≡ (if fits then r.conn.inbound ++ (payload ∷ []) else r.conn.inbound))
  unfolding read_round close_with_error
  read_round-delivers base64 aead random codec now pong sender bytes payload t r h k e key n m i =
      ground (
        arith,
        decrypt_payload-touch now r.conn bytes,
        decrypt_payload-encrypt_payload p c base64 aead random codec sender r.conn payload bytes e
            key,
        encrypt_payload-non_empty codec sender payload bytes e,
      )
