-- ===== src/Examples/Links.antt =====
-- Connections at concrete inputs.
use go_send.Base.{
  ℕ, text_eq, List, All, Option, ◌||◌, ◌+◌, ◌≡◌, refl, true, false, not, [], ◌∷◌, ◌++◌, none, some,
  Bytes, codes, length, leb, ◌==◌, if◌then◌else◌, arith,
}
use go_send.Crypto.{encrypt}
use go_send.Protocol.{decode_message_type, type_file_data}
use go_send.Connection.State.{
  oversized, malformed, eof, ready, disconnecting, disconnected, PeerConnection, validate_sequence,
  rotate_session_key,
}
use go_send.Connection.Secure.{encrypt_payload, key_for_epoch, decrypt_payload}
use go_send.Connection.Send.{disconnect}
use go_send.Connection.ReadLoop.{frame, Reader, read_round, read_loop}
use go_send.Connection.Sequence.{accepted, RisesAbove, accepted_rises}
use go_send.Connection.Epoch.{
  HasEpochs, key_for_epoch-rotate, decrypt_payload-encrypt_payload, decrypt_payload-ahead,
}
use go_send.Connection.Rotations.{Rotation, rotate_all, keys_after, key_at, rotate_all-key_at}
use go_send.Connection.Closing.{
  sends, disconnects, closes, ticks, IsClosedAs, calls, calls-IsClosedAs, disconnect_open,
  disconnect_closed,
}
use go_send.Connection.Malformed.{
  is_internal, is_malformed, as_events, read_loop-malformed, read_round-delivers,
}
use go_send.Examples.Toy.{
  toy, toy_codec, toy-IsBase64, toy-IsAead, toy-IsRandom, toy-IsCodec, zeros,
}

-- A connection in its second epoch, with number 4 sent last and number 4 seen last.
abbrev pub link : PeerConnection
link = record {
  session_key = zeros 32;
  session_epoch = 1;
  previous_session_key = 1 ∷ zeros 31;
  previous_session_epoch = 0;
  has_previous_session = true;
  local_device_id = codes "bob";
  peer_device_id = codes "alice";
  peer_public_key = zeros 32;
  send_sequence = 4;
  last_seen_seq = 4;
  state = ready;
  waiting_pong = false;
  pong_deadline = 0;
  last_activity = 0;
  last_rekey_at = 0;
  bytes_since_rekey = 0;
  keep_alive_interval = 60;
  keep_alive_timeout = 15;
  auto_respond_ping = true;
  rekey_interval = 3600;
  rekey_after_bytes = 1000;
  inbound = [];
  closed = false;
  close_err = none;
  rekey_in_progress = false;
  has_callback = true;
  callbacks = 0;
  wire = [];
  link_up = true;
  draws = 0;
}

-- Still in epoch 0, with the key that `link` holds as its previous one.
abbrev late_sender : PeerConnection
late_sender = record link {
  session_key = 1 ∷ zeros 31;
  session_epoch = 0;
  has_previous_session = false;
}

abbrev early_sender : PeerConnection
early_sender = record link { session_key = 2 ∷ zeros 31; session_epoch = 2 }

abbrev hello : Bytes
hello = codes "hello"

hello_plain : is_internal hello ≡ false
unfolding text_eq
hello_plain = refl

-- What the toy primitives and codec make of `hello` under a key and an epoch.
abbrev frame_bytes : ℕ → Bytes → Bytes
frame_bytes epoch key = epoch ∷ 12 ∷ 12 ∷ (codes "secure_frame" ++ (zeros 12 ++ (key ++ hello)))

late_frame : encrypt_payload toy toy_codec late_sender hello ≡ some (frame_bytes 0 (1 ∷ zeros 31))
unfolding encrypt_payload encrypt
late_frame = refl

early_frame : encrypt_payload toy toy_codec early_sender hello ≡ some (frame_bytes 2 (2 ∷ zeros 31))
unfolding encrypt_payload encrypt
early_frame = refl

late_key : key_for_epoch link 0 ≡ some (1 ∷ zeros 31)
unfolding key_for_epoch
late_key = refl

accepted_test : accepted link (5 ∷ 5 ∷ 3 ∷ 8 ∷ 7 ∷ 9 ∷ []) ≡ 5 ∷ 8 ∷ 9 ∷ []
unfolding accepted validate_sequence
accepted_test = refl

accepted_rises_example : RisesAbove 4 (accepted link (5 ∷ 5 ∷ 3 ∷ 8 ∷ 7 ∷ 9 ∷ []))
accepted_rises_example = accepted_rises (5 ∷ 5 ∷ 3 ∷ 8 ∷ 7 ∷ 9 ∷ []) link

key_for_epoch-rotate_example :
    key_for_epoch (rotate_session_key 9 (2 ∷ zeros 31) (link.session_epoch + 1) link).0 1 ≡ (
      if 1 == link.session_epoch + 1
      then some (2 ∷ zeros 31)
      else if 1 == link.session_epoch
      then some link.session_key
      else none)
key_for_epoch-rotate_example = key_for_epoch-rotate 9 (2 ∷ zeros 31) link 1 (omega arith) refl refl

link-HasEpochs : HasEpochs link
link-HasEpochs = record { adjacent = λ h. refl }

-- In its first epoch.
abbrev fresh_link : PeerConnection
fresh_link = record late_sender { session_key = 1 ∷ zeros 31 }

-- The second attempt comes too early, the third one again in its turn.
abbrev attempts : List Rotation
attempts =
    record { at = 5; key = 2 ∷ zeros 31; epoch = 1 }
    ∷ record { at = 6; key = 4 ∷ zeros 31; epoch = 3 }
    ∷ record { at = 7; key = 3 ∷ zeros 31; epoch = 2 }
    ∷ []

attempts_test :
    keys_after attempts (fresh_link.session_key ∷ [])
    ≡ (3 ∷ zeros 31) ∷ (2 ∷ zeros 31) ∷ (1 ∷ zeros 31) ∷ []
unfolding keys_after
attempts_test = refl

rotate_all-key_at_example :
    key_for_epoch (rotate_all attempts fresh_link) 1
    ≡ key_at (keys_after attempts (fresh_link.session_key ∷ [])) 1
rotate_all-key_at_example = rotate_all-key_at attempts fresh_link 1 refl refl refl

decrypt_payload-encrypt_payload_example :
    decrypt_payload toy toy_codec link (frame_bytes 0 (1 ∷ zeros 31)) ≡ some hello
decrypt_payload-encrypt_payload_example =
    decrypt_payload-encrypt_payload toy toy_codec toy-IsBase64 toy-IsAead toy-IsRandom toy-IsCodec
      late_sender link hello (frame_bytes 0 (1 ∷ zeros 31)) late_frame late_key

decrypt_payload-ahead_example :
    decrypt_payload toy toy_codec link (frame_bytes 2 (2 ∷ zeros 31)) ≡ none
decrypt_payload-ahead_example =
    decrypt_payload-ahead toy toy_codec toy-IsBase64 toy-IsAead toy-IsRandom toy-IsCodec
      early_sender link hello (frame_bytes 2 (2 ∷ zeros 31)) early_frame link-HasEpochs refl

-- The connection once it ended.
abbrev ended : PeerConnection
ended = record link {
  closed = true;
  link_up = false;
  state = disconnected;
  close_err = some eof;
  wire = hello;
}

ended-IsClosedAs : IsClosedAs hello (some eof) ended
ended-IsClosedAs = record { closed = refl; link_down = refl; written = refl; reason = refl }

calls-IsClosedAs_example : IsClosedAs hello (some eof) (
    calls toy toy_codec
      (disconnects 1 (some hello) ∷ sends 2 (some hello) ∷ ticks 90 (some hello) ∷ closes none ∷ [])
      ended)
calls-IsClosedAs_example =
    calls-IsClosedAs toy toy_codec
      (disconnects 1 (some hello) ∷ sends 2 (some hello) ∷ ticks 90 (some hello) ∷ closes none ∷ [])
      hello (some eof) ended ended-IsClosedAs

disconnect_open_example :
    let pc' = disconnect toy toy_codec 1 (some hello) link in
    (pc'.closed ≡ true) × (pc'.link_up ≡ false) × (pc'.state ≡ disconnected)
disconnect_open_example = disconnect_open toy toy_codec 1 (some hello) link refl

disconnect_closed_example : (disconnect toy toy_codec 1 (some hello) ended).state ≡ disconnecting
disconnect_closed_example =
    disconnect_closed toy toy_codec 1 (some hello) hello (some eof) ended ended-IsClosedAs

-- Two malformed frames were counted.
abbrev reader : Reader
reader = record { conn = link; malformed_frames = 2; running = true }

abbrev first_round : Reader
first_round = record { conn = link; malformed_frames = 0; running = true }

-- Not frames of the toy codec.
abbrev unreadable : List (ℕ × Option Bytes × Bytes)
unreadable = (7, none, 1 ∷ []) ∷ (8, none, 2 ∷ []) ∷ (9, none, 3 ∷ []) ∷ []

unreadable_malformed : All (λ f. is_malformed toy toy_codec link f.2 ≡ true) unreadable
unfolding decrypt_payload
unreadable_malformed = (refl, (refl, (refl, tt)))

read_loop-malformed_example :
    let r' = read_loop toy toy_codec (as_events toy toy_codec unreadable) first_round in
    let third = leb 3 (first_round.malformed_frames + length unreadable) in
    (r'.running ≡ not third)
    × (r'.conn.closed ≡ third)
    × (r'.conn.close_err ≡ (if third then some (malformed 3) else first_round.conn.close_err))
    × (r'.conn.inbound ≡ first_round.conn.inbound)
read_loop-malformed_example =
    read_loop-malformed toy toy_codec unreadable first_round refl refl (omega arith)
      unreadable_malformed

hello_type : decode_message_type toy_codec.envelope hello ≡ some hello
unfolding decode_message_type
hello_type = refl

read_round-delivers_example :
    let r' = read_round toy toy_codec 7 none (frame (frame_bytes 0 (1 ∷ zeros 31))) reader in
    let fits = text_eq hello type_file_data || leb (length hello) 65_536 in
    (r'.running ≡ fits)
    × (r'.conn.closed ≡ not fits)
    × (r'.conn.close_err ≡ (if fits then reader.conn.close_err else some oversized))
    × (r'.conn.state ≡ (if fits then ready else disconnected))
    × (r'.malformed_frames ≡ (if fits then 0 else reader.malformed_frames))
    × (r'.conn.inbound
        ≡ (if fits then reader.conn.inbound ++ (hello ∷ []) else reader.conn.inbound))
read_round-delivers_example =
    read_round-delivers toy toy_codec toy-IsBase64 toy-IsAead toy-IsRandom toy-IsCodec 7 none
      late_sender (frame_bytes 0 (1 ∷ zeros 31)) hello hello reader refl refl late_frame late_key
      refl hello_type hello_plain
