-- ===== src/Examples/Deliveries.antt =====
-- A text message on its way from Alice to Bob, at concrete inputs.
use go_send.Base.{◌≡◌, refl, true, false, [], ◌∷◌, ◌++◌, none, some, codes, text_eq, arith}
use go_send.Base.Int.{pos}
use go_send.Base.Dict.{lookup}
use go_send.Timestamp.{within_timestamp_skew}
use go_send.Crypto.{encrypt, sign}
use go_send.Protocol.{EncryptedMessage}
use go_send.Connection.State.{next_send_sequence}
use go_send.Storage.Messages.{find_message}
use go_send.Storage.Seen.{has_seen_id}
use go_send.Messaging.Session.{Session, sign_encrypted_message}
use go_send.Messaging.Receive.{receive}
use go_send.Messaging.Outgoing.{unsigned_message, build_encrypted_message}
use go_send.Messaging.Built.{IsMessageWire, IsPaired}
use go_send.Messaging.Delivery.{delivered_row, receive-build_encrypted_message}
use go_send.Examples.Toy.{toy, toy_codec, toy_wire, toy-IsBase64, toy-IsAead, toy-IsRandom, zeros}
use go_send.Examples.Links.{link}
use go_send.Examples.Queues.{bob_node}
use go_send.Examples.Exchanges.{alice, alice-IsIdentity}

toy_wire-IsMessageWire : IsMessageWire toy_wire
toy_wire-IsMessageWire = record {
  payload = λ m. 0 ∷ m.encrypted_content;
  marshals = λ m. refl;
  non_empty = λ m. refl;
}

abbrev at_alice : Session
at_alice = record {
  conn = record link { local_device_id = codes "alice"; peer_device_id = codes "bob" };
  node = record bob_node { device_id = codes "alice"; messages = []; seen = [] };
}

abbrev at_bob : Session
at_bob = record { conn = link; node = bob_node }

at_bob-IsPaired : IsPaired toy alice at_alice at_bob
at_bob-IsPaired = record {
  own_id = refl;
  own_key = refl;
  to_peer = refl;
  from_peer = refl;
  peer_key = refl;
  session_key = refl;
}

abbrev greeting_message : EncryptedMessage
greeting_message = record {
  message_id = codes "m7";
  from_device_id = codes "alice";
  to_device_id = codes "bob";
  content_type = codes "text";
  sequence = 5;
  encrypted_content = zeros 32 ++ codes "hi";
  iv = zeros 12;
  timestamp = pos 5;
  signature = zeros 64;
}

greeting_built :
    (build_encrypted_message toy toy_codec toy_wire 5_000_000
      (codes "m7")
      (codes "hi")
      (pos 5)
      at_alice).1
    ≡ some greeting_message
unfolding build_encrypted_message sign_encrypted_message encrypt sign next_send_sequence
    unsigned_message
greeting_built = refl

greeting_in_time : within_timestamp_skew 6_000_000 (pos 5) ≡ true
unfolding within_timestamp_skew
greeting_in_time = refl

greeting_unseen : has_seen_id (codes "m7") bob_node.seen ≡ some false
unfolding has_seen_id lookup text_eq
greeting_unseen = refl

greeting_unstored : find_message (codes "m7") bob_node.messages ≡ none
unfolding find_message text_eq
greeting_unstored = refl

receive-build_encrypted_message_example :
    let row =
      delivered_row toy toy_codec toy_wire toy-IsBase64 toy-IsAead toy-IsRandom
        toy_wire-IsMessageWire 6_000_000 greeting_message
        (codes "hi") in
    ((receive toy toy_codec toy_wire 6_000_000 greeting_message at_bob).node.messages
      ≡ bob_node.messages ++ (row ∷ []))
    × (row.message_id ≡ codes "m7")
    × (row.from_device_id ≡ codes "alice")
    × (row.to_device_id ≡ codes "bob")
    × (row.timestamp_sent ≡ pos 5)
receive-build_encrypted_message_example =
    receive-build_encrypted_message toy toy_codec toy_wire toy-IsBase64 toy-IsAead toy-IsRandom
      toy_wire-IsMessageWire alice 5_000_000 6_000_000 (codes "m7") (codes "hi") (pos 5) at_alice
      at_bob greeting_message alice-IsIdentity at_bob-IsPaired greeting_built (omega arith)
      (omega arith) refl greeting_in_time refl refl refl greeting_unseen greeting_unstored refl refl
