-- ===== src/Examples/Exchanges.antt =====
-- Handshakes at concrete inputs.
use go_send.Base.{
  ◌≡◌, refl, [], ◌∷◌, Option, none, some, Bytes, Text, codes, text_eq, text_lt, trim_space,
}
use go_send.Base.Dict.{lookup}
use go_send.Crypto.{sign, verify}
use go_send.Crypto.Session.{
  sort_ids, shared_secret, derive_session_key, derive_session_key_with_context, session_info,
}
use go_send.Protocol.{
  type_handshake, type_handshake_response, HandshakeMessage, HandshakeResponse, decode_message_type,
}
use go_send.Base.Int.{pos}
use go_send.Connection.State.{PeerConnection}
use go_send.Handshake.Options.{LocalIdentity, HandshakeOptions, with_defaults, new_peer_connection}
use go_send.Handshake.Keys.{existing_key, evaluate_peer_key}
use go_send.Handshake.Sign.{
  unsigned_handshake, sign_handshake, build_handshake_message, build_handshake_response,
  verify_handshake, verify_handshake_response,
}
use go_send.Handshake.Dial.{answer_challenge, finish_dial}
use go_send.Handshake.Serve.{established, challenge_payload, serve}
use go_send.Handshake.Honest.{IsIdentity}
use go_send.Handshake.Exchange.{IsAgreed, handshake_agrees}
use go_send.Handshake.Trust.{
  IsAuthentic, IsDialed, serve-IsAuthentic, finish_dial-IsDialed, finish_dial_replayed,
}
use go_send.Examples.Toy.{toy, toy-IsBase64, toy-IsX25519, zeros}
use go_send.Examples.ToyWire.{toy_handshake_wire, toy_handshake_wire-IsHandshakeWire}

abbrev pub alice : LocalIdentity
alice = record {
  device_id = codes "alice";
  device_name = codes "Alice";
  ed25519_private_key = zeros 64;
  ed25519_public_key = zeros 32;
}

abbrev pub bob : LocalIdentity
bob = record {
  device_id = codes "bob";
  device_name = codes "Bob";
  ed25519_private_key = zeros 64;
  ed25519_public_key = 1 ∷ zeros 31;
}

-- Alice's key is on record, nothing else is.
abbrev options_of : LocalIdentity → HandshakeOptions
options_of i = record {
  identity = i;
  known_peer_keys = (codes "alice", zeros 32) ∷ [];
  known_peer_key_lookup = none;
  on_key_change_decision = none;
  keep_alive_interval = 0;
  keep_alive_timeout = 0;
  rekey_interval = 0;
  rekey_after_bytes = 0;
  auto_respond_ping = none;
}

pub alice-IsIdentity : IsIdentity toy alice
unfolding trim_space
alice-IsIdentity = record {
  named = refl;
  has_id = refl;
  has_name = refl;
  private_length = refl;
  public_length = refl;
  signature_length = λ m. refl;
  verifies = λ m. refl;
}

pub bob-IsIdentity : IsIdentity toy bob
unfolding trim_space
bob-IsIdentity = record {
  named = refl;
  has_id = refl;
  has_name = refl;
  private_length = refl;
  public_length = refl;
  signature_length = λ m. refl;
  verifies = λ m. refl;
}

bob_knows_alice : evaluate_peer_key (options_of bob) (codes "alice") (zeros 32) ≡ none
unfolding evaluate_peer_key existing_key lookup text_eq
bob_knows_alice = refl

alice_meets_bob : evaluate_peer_key (options_of alice) (codes "bob") (1 ∷ zeros 31) ≡ none
unfolding evaluate_peer_key existing_key lookup text_eq
alice_meets_bob = refl

handshake_agrees_example :
    (challenge handshake response : Bytes) × (here there : PeerConnection) × (challenge_payload toy
        toy_handshake_wire
        (zeros 32)
      ≡ some challenge)
    × (answer_challenge toy toy_handshake_wire
          (options_of alice)
          1_000_000
          (some (1 ∷ []))
          challenge
        ≡ some (handshake, zeros 32))
    × (serve toy toy_handshake_wire (options_of bob) 2_000_000 (zeros 32) (some (2 ∷ [])) handshake
        ≡ established response there)
    × (finish_dial toy toy_handshake_wire (options_of alice) 3_000_000 (1 ∷ []) (zeros 32) response
        ≡ some here)
    × IsAgreed toy (options_of alice) (options_of bob) here there
handshake_agrees_example =
    handshake_agrees toy toy_handshake_wire toy-IsBase64 toy-IsX25519
      toy_handshake_wire-IsHandshakeWire (options_of alice) (options_of bob) 1_000_000 2_000_000
      3_000_000 (1 ∷ []) (2 ∷ []) (3 ∷ []) (zeros 32) alice-IsIdentity bob-IsIdentity
      bob_knows_alice alice_meets_bob refl refl refl

-- The handshake that Alice sends, and the response that Bob sends.
abbrev greeting : HandshakeMessage
greeting = record {
  message_type = type_handshake;
  device_id = codes "alice";
  device_name = codes "Alice";
  ed25519_public_key = zeros 32;
  x25519_public_key = 1 ∷ [];
  challenge_nonce = zeros 32;
  version = pos 1;
  timestamp = pos 1;
  signature = zeros 64;
}

abbrev answer : HandshakeResponse
answer = record {
  message_type = type_handshake_response;
  device_id = codes "bob";
  device_name = codes "Bob";
  ed25519_public_key = 1 ∷ zeros 31;
  x25519_public_key = 2 ∷ [];
  version = pos 1;
  timestamp = pos 2;
  signature = zeros 64;
}

abbrev payload_of : Option Bytes → Bytes
payload_of none = []
payload_of (some b) = b

abbrev greeting_payload : Bytes
greeting_payload = payload_of (toy_handshake_wire.marshal_handshake greeting)

abbrev answer_payload : Bytes
answer_payload = payload_of (toy_handshake_wire.marshal_response answer)

-- Bob's end, with the session key of the exchange.
abbrev bob_end : PeerConnection
bob_end = new_peer_connection 2_000_000 (zeros 32) (options_of bob) (codes "alice") (zeros 32)

abbrev alice_end : PeerConnection
alice_end =
    new_peer_connection 3_000_000 (zeros 32) (with_defaults (options_of alice)) (codes "bob")
      (1 ∷ zeros 31)

greeting_served :
    serve toy toy_handshake_wire
      (options_of bob)
      2_000_000
      (zeros 32)
      (some (2 ∷ []))
      greeting_payload
    ≡ established answer_payload bob_end
unfolding serve decode_message_type verify_handshake verify evaluate_peer_key existing_key lookup
    text_eq derive_session_key shared_secret derive_session_key_with_context session_info sort_ids
    text_lt trim_space build_handshake_response build_handshake_message sign_handshake sign
    unsigned_handshake
greeting_served = refl

serve-IsAuthentic_example :
    IsAuthentic toy toy_handshake_wire (options_of bob) (zeros 32) greeting_payload bob_end
serve-IsAuthentic_example =
    serve-IsAuthentic toy toy_handshake_wire (options_of bob) 2_000_000 (zeros 32) (some (2 ∷ []))
      greeting_payload answer_payload bob_end greeting_served

answer_accepted :
    finish_dial toy toy_handshake_wire
      (options_of alice)
      3_000_000
      (1 ∷ [])
      (zeros 32)
      answer_payload
    ≡ some alice_end
unfolding finish_dial decode_message_type verify_handshake_response verify_handshake verify
    evaluate_peer_key existing_key lookup text_eq derive_session_key shared_secret
    derive_session_key_with_context session_info sort_ids text_lt trim_space with_defaults
answer_accepted = refl

finish_dial-IsDialed_example :
    IsDialed toy toy_handshake_wire (options_of alice) (1 ∷ []) (zeros 32) answer_payload alice_end
finish_dial-IsDialed_example =
    finish_dial-IsDialed toy toy_handshake_wire (options_of alice) 3_000_000 (1 ∷ []) (zeros 32)
      answer_payload alice_end answer_accepted

answer_decoded : toy_handshake_wire.unmarshal_response answer_payload ≡ some answer
answer_decoded = refl

abbrev other_challenge : Text
other_challenge = 9 ∷ zeros 31

other_key :
    derive_session_key toy (5 ∷ []) (2 ∷ []) (codes "alice") (codes "bob") other_challenge
    ≡ some (zeros 32)
unfolding derive_session_key shared_secret derive_session_key_with_context trim_space
other_key = refl

finish_dial_replayed_example :
    finish_dial toy toy_handshake_wire
      (options_of alice)
      4_000_000
      (5 ∷ [])
      other_challenge
      answer_payload
    ≡ some (
        new_peer_connection 4_000_000
          (zeros 32)
          (with_defaults (options_of alice))
          (codes "bob")
          (1 ∷ zeros 31))
finish_dial_replayed_example =
    finish_dial_replayed toy toy_handshake_wire (options_of alice) 3_000_000 4_000_000 (1 ∷ [])
      (5 ∷ []) (zeros 32) other_challenge answer_payload (zeros 32) alice_end answer answer_accepted
      answer_decoded other_key
