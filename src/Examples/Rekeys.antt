-- ===== src/Examples/Rekeys.antt =====
-- Rekeys and acknowledgements at concrete inputs.
use go_send.Base.{
  ℕ, ◌+◌, ◌≡◌, ◌⊎◌, ◌++◌, not, ◌&&◌, is_empty, refl, true, [], ◌∷◌, Option, none, some, Bytes, Text,
  codes, text_eq, arith,
}
use go_send.Base.Int.{pos}
use go_send.Timestamp.{within_timestamp_skew}
use go_send.Crypto.{sign, encrypt}
use go_send.Protocol.{Rekey, AckMessage, ErrorMessage}
use go_send.Protocol.Frame.{write_frame}
use go_send.Connection.Secure.{encrypt_payload}
use go_send.Connection.Send.{write_conn, send_raw, send_message}
use go_send.Storage.Messages.{failed}
use go_send.Messaging.Session.{Session}
use go_send.Messaging.Ack.{handle_ack, handle_protocol_error}
use go_send.Storage.Marked.{with_status}
use go_send.Messaging.Node.{reported}
use go_send.Messaging.Acked.{IsAcked, handle_ack_route, handle_protocol_error_any}
use go_send.Rekey.Sign.{type_rekey_request, type_rekey_response, sign_rekey}
use go_send.Rekey.Initiate.{rekey_request, initiate_rekey, handle_rekey_response, finish_rekey}
use go_send.Rekey.Respond.{rekey_response, handle_rekey_request}
use go_send.Rekey.Steps.{IsRekeyWire, IsEnd, IsRekeyed}
use go_send.Rekey.Exchange.{rekey_agrees}
use go_send.Examples.Toy.{toy, toy_codec, toy_wire, toy-IsBase64, toy-IsX25519, toy-IsHkdf, zeros}
use go_send.Examples.Links.{link}
use go_send.Examples.Queues.{bob_node}
use go_send.Examples.Exchanges.{alice, bob, alice-IsIdentity, bob-IsIdentity}

abbrev here : Session
here = record {
  conn = record link {
    local_device_id = codes "alice";
    peer_device_id = codes "bob";
    peer_public_key = 1 ∷ zeros 31;
  };
  node = record bob_node { device_id = codes "alice" };
}

abbrev there : Session
there = record { conn = link; node = bob_node }

abbrev toy_rekey : Rekey → Option Bytes
toy_rekey m = some (3 ∷ m.x25519_public_key)

toy_rekey-IsRekeyWire : IsRekeyWire toy_rekey
toy_rekey-IsRekeyWire = record {
  payload = λ m. 3 ∷ m.x25519_public_key;
  marshals = λ m. refl;
  non_empty = λ m. refl;
}

here-IsEnd : IsEnd toy alice bob here
here-IsEnd = record { own_id = refl; own_key = refl; peer_id = refl; peer_key = refl }

there-IsEnd : IsEnd toy bob alice there
there-IsEnd = record { own_id = refl; own_key = refl; peer_id = refl; peer_key = refl }

abbrev digit : ℕ → Text
digit n = (n + 48) ∷ []

abbrev request : Rekey
request = record {
  message_type = type_rekey_request;
  from_device_id = codes "alice";
  epoch = 2;
  x25519_public_key = 1 ∷ [];
  timestamp = pos 1;
  signature = zeros 64;
}

abbrev response : Rekey
response = record {
  message_type = type_rekey_response;
  from_device_id = codes "bob";
  epoch = 2;
  x25519_public_key = 2 ∷ [];
  timestamp = pos 2;
  signature = zeros 64;
}

request_signed :
    sign_rekey toy toy_rekey alice.ed25519_private_key
      (rekey_request toy toy_codec toy_rekey digit 1_000_000 (1 ∷ []) here)
    ≡ some request
unfolding sign_rekey sign rekey_request
request_signed = refl

response_signed :
    sign_rekey toy toy_rekey bob.ed25519_private_key
      (rekey_response toy toy_codec toy_rekey digit 2_000_000 (2 ∷ []) 2 there)
    ≡ some response
unfolding sign_rekey sign rekey_response
response_signed = refl

request_timely : within_timestamp_skew 2_000_000 (pos 1) ≡ true
unfolding within_timestamp_skew
request_timely = refl

response_timely : within_timestamp_skew 3_000_000 (pos 2) ≡ true
unfolding within_timestamp_skew
response_timely = refl

request_sent : (send_message toy toy_codec 1_000_000 (toy_rekey request) here.conn).1 ≡ none
unfolding send_message send_raw encrypt_payload encrypt write_frame write_conn
request_sent = refl

response_sent : (send_message toy toy_codec 2_000_000 (toy_rekey response) there.conn).1 ≡ none
unfolding send_message send_raw encrypt_payload encrypt write_frame write_conn
response_sent = refl

rekey_agrees_example :
    let waiting =
      initiate_rekey toy toy_codec toy_rekey digit 1_000_000
        (some (1 ∷ []))
        (record { session = here; waiter = none }) in
    let there' =
      handle_rekey_request toy toy_codec toy_rekey digit 2_000_000 (some (2 ∷ [])) request there in
    let here' =
      finish_rekey toy toy_codec toy_rekey digit 4_000_000
        (handle_rekey_response toy toy_codec toy_rekey digit 3_000_000 response waiting) in
    (key : Bytes) × IsRekeyed here.conn here'.session.conn key
    × IsRekeyed there.conn there'.conn key
rekey_agrees_example =
    rekey_agrees toy toy_codec toy_rekey digit toy-IsBase64 toy-IsX25519 toy-IsHkdf
      toy_rekey-IsRekeyWire alice bob here there 1_000_000 2_000_000 3_000_000 4_000_000 (1 ∷ [])
      (2 ∷ []) (3 ∷ []) request response alice-IsIdentity bob-IsIdentity here-IsEnd there-IsEnd refl
      (omega arith) refl refl refl refl request_timely response_timely request_signed
      response_signed request_sent response_sent

-- Alice acknowledges the message m1 of Bob's queue.
abbrev ack : AckMessage
ack = record {
  message_id = codes "m1";
  from_device_id = codes "alice";
  status = codes "delivered";
  timestamp = pos 5;
  signature = zeros 64;
}

handle_ack_route_example :
    let rows = (handle_ack toy toy_codec toy_wire 7 ack there).node.messages in
    (rows ≡ bob_node.messages) ⊎ IsAcked toy toy_codec toy_wire ack there rows
handle_ack_route_example = handle_ack_route toy toy_codec toy_wire 7 ack there

abbrev failure : ErrorMessage
failure = record {
  code = codes "decryption_failed";
  message = codes "message decryption failed";
  related_message_id = codes "m1";
  supported_versions = [];
  timestamp = pos 5;
}

handle_protocol_error_any_example :
    let s' = handle_protocol_error failure there in
    (s'.node.messages
      ≡ with_status failed
          (λ m. not (is_empty (codes "m1")) && text_eq m.message_id (codes "m1"))
          bob_node.messages)
    × (s'.node.log ≡ bob_node.log ++ (reported ∷ []))
    × (s'.conn ≡ there.conn)
handle_protocol_error_any_example = handle_protocol_error_any failure there
