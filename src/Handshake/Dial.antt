-- ===== src/Handshake/Dial.antt =====
-- network/client.go: Dial, from the challenge to the handshake and from the response to the
-- connection. Payloads above the limit of control frames do not get here.
use go_send.Base.{
  ℕ, ◌/◌, not, Option, none, some, Bytes, Text, text_eq, length, ◌==◌, if◌then◌else◌,
}
use go_send.Base.Int.{pos}
use go_send.Protocol.{
  type_handshake_challenge, type_handshake, type_handshake_response, decode_message_type,
}
use go_send.Crypto.{Primitives}
use go_send.Crypto.Session.{derive_session_key}
use go_send.Connection.State.{PeerConnection}
use go_send.Handshake.Options.{
  HandshakeOptions, validate_identity, with_defaults, new_peer_connection,
}
use go_send.Handshake.Keys.{evaluate_peer_key}
use go_send.Handshake.Sign.{HandshakeWire, build_handshake_message, verify_handshake_response}

module _ (p : Primitives) (w : HandshakeWire) where
  -- The payload of the handshake and the challenge it answers; none closes the socket. `ephemeral`
  -- is the private key of GenerateEphemeralX25519KeyPair, or none for its error.
  unfoldable pub answer_challenge :
      HandshakeOptions → ℕ → Option Bytes → Bytes → Option (Bytes × Text)
  answer_challenge options now ephemeral challenge_payload =
      if not (validate_identity options)
      then none
      else elim (decode_message_type w.envelope challenge_payload) [
        | none ↦ none
        | some t ↦
            if not (text_eq t type_handshake_challenge)
            then none
            else elim (w.unmarshal_challenge challenge_payload) [
              | none ↦ none
              | some challenge ↦ elim (p.b64_decode challenge.nonce) [
                | none ↦ none
                | some raw ↦ if not (length raw == 32) then none else elim ephemeral [
                  | none ↦ none
                  | some private_key ↦
                      elim (build_handshake_message p w (pos (now / 1_000_000)) options.identity
                        (p.x25519_public private_key) challenge.nonce type_handshake) [
                          | none ↦ none
                          | some m ↦ elim (w.marshal_handshake m) [
                            | none ↦ none
                            | some payload ↦ some (payload, challenge.nonce)
                          ]
                        ]
                ]
              ]
            ]
      ]

  -- From the response on: the connection, or none.
  unfoldable pub finish_dial : HandshakeOptions → ℕ → Bytes → Text → Bytes → Option PeerConnection
  finish_dial options now private_key challenge_nonce response_payload =
      let opts = with_defaults options in
      elim (decode_message_type w.envelope response_payload) [
        | none ↦ none
        | some t ↦
            if not (text_eq t type_handshake_response)
            then none
            else elim (w.unmarshal_response response_payload) [
              | none ↦ none
              | some response ↦ elim (verify_handshake_response p w response) [
                | some _ ↦ none
                | none ↦
                    elim (evaluate_peer_key opts response.device_id response.ed25519_public_key) [
                      | some _ ↦ none
                      | none ↦
                          elim (derive_session_key p private_key response.x25519_public_key
                            opts.identity.device_id response.device_id challenge_nonce) [
                              | none ↦ none
                              | some key ↦ some (
                                  new_peer_connection now key opts response.device_id
                                    response.ed25519_public_key)
                            ]
                    ]
              ]
            ]
      ]
