-- ===== src/Examples/ToyWire.antt =====
-- A concrete encoding of the handshake's messages: the fields, each after its length.
use go_send.Base.{
  ℕ, zero, suc, ◌≡◌, ◌∙◌, refl, ap, List, [], ◌∷◌, ◌++◌, Option, none, some, Bytes, Text, length,
  take, drop, take-length-append, drop-length-append, arith,
}
use go_send.Base.Int.{ℤ, pos, negsuc}
use go_send.Protocol.{HandshakeChallenge, HandshakeMessage, HandshakeResponse}
use go_send.Handshake.Sign.{HandshakeWire}
use go_send.Handshake.Honest.{IsHandshakeWire}

abbrev pack : List Bytes → Bytes
pack [] = []
pack (x ∷ xs) = length x ∷ (x ++ pack xs)

abbrev unpack : ℕ → Bytes → List Bytes
unpack zero s = []
unpack (suc n) [] = []
unpack (suc n) (k ∷ s) = take k s ∷ unpack n (drop k s)

unpack-pack : (xs : List Bytes) → unpack (length xs) (pack xs) ≡ xs
unpack-pack [] = refl
unpack-pack (x ∷ xs) =
    rw (take-length-append x (pack xs), drop-length-append x (pack xs))
      (ap (◌∷◌ x) (unpack-pack xs))

abbrev first_field : Bytes → Option Text
first_field [] = none
first_field (k ∷ s) = some (take k s)

first_field-pack : (x : Bytes) (xs : List Bytes) → first_field (pack (x ∷ xs)) ≡ some x
first_field-pack x xs = ap some (take-length-append x (pack xs))

abbrev put_int : ℤ → Bytes
put_int (pos n) = zero ∷ n ∷ []
put_int (negsuc n) = suc zero ∷ n ∷ []

abbrev get_int : Bytes → ℤ
get_int (zero ∷ n ∷ _) = pos n
get_int (suc _ ∷ n ∷ _) = negsuc n
get_int _ = pos 0

get_int-put_int : (z : ℤ) → get_int (put_int z) ≡ z
get_int-put_int (pos n) = refl
get_int-put_int (negsuc n) = refl

abbrev challenge_fields : HandshakeChallenge → List Bytes
challenge_fields m = m.message_type ∷ m.nonce ∷ []

abbrev to_challenge : List Bytes → Option HandshakeChallenge
to_challenge (t ∷ n ∷ _) = some (record { message_type = t; nonce = n })
to_challenge _ = none

abbrev handshake_fields : HandshakeMessage → List Bytes
handshake_fields m =
    m.message_type
    ∷ m.device_id
    ∷ m.device_name
    ∷ m.ed25519_public_key
    ∷ m.x25519_public_key
    ∷ m.challenge_nonce
    ∷ put_int m.version
    ∷ put_int m.timestamp
    ∷ m.signature
    ∷ []

abbrev to_handshake : List Bytes → Option HandshakeMessage
to_handshake (t ∷ i ∷ n ∷ e ∷ x ∷ c ∷ v ∷ at ∷ s ∷ _) = some (record {
  message_type = t;
  device_id = i;
  device_name = n;
  ed25519_public_key = e;
  x25519_public_key = x;
  challenge_nonce = c;
  version = get_int v;
  timestamp = get_int at;
  signature = s;
})
to_handshake _ = none

abbrev response_fields : HandshakeResponse → List Bytes
response_fields m =
    m.message_type
    ∷ m.device_id
    ∷ m.device_name
    ∷ m.ed25519_public_key
    ∷ m.x25519_public_key
    ∷ put_int m.version
    ∷ put_int m.timestamp
    ∷ m.signature
    ∷ []

abbrev to_response : List Bytes → Option HandshakeResponse
to_response (t ∷ i ∷ n ∷ e ∷ x ∷ v ∷ at ∷ s ∷ _) = some (record {
  message_type = t;
  device_id = i;
  device_name = n;
  ed25519_public_key = e;
  x25519_public_key = x;
  version = get_int v;
  timestamp = get_int at;
  signature = s;
})
to_response _ = none

abbrev pub toy_handshake_wire : HandshakeWire
toy_handshake_wire = record {
  envelope = first_field;
  marshal_challenge = λ m. some (pack (challenge_fields m));
  unmarshal_challenge = λ b. to_challenge (unpack 2 b);
  marshal_handshake = λ m. some (pack (handshake_fields m));
  unmarshal_handshake = λ b. to_handshake (unpack 9 b);
  marshal_response = λ m. some (pack (response_fields m));
  unmarshal_response = λ b. to_response (unpack 8 b);
}

challenge-decodes :
    (m : HandshakeChallenge) → to_challenge (unpack 2 (pack (challenge_fields m))) ≡ some m
challenge-decodes m = ap to_challenge (unpack-pack (challenge_fields m))

handshake-decodes :
    (m : HandshakeMessage) → to_handshake (unpack 9 (pack (handshake_fields m))) ≡ some m
handshake-decodes m =
    ap to_handshake (unpack-pack (handshake_fields m))
    ∙ ground (arith, get_int-put_int m.version, get_int-put_int m.timestamp)

response-decodes :
    (m : HandshakeResponse) → to_response (unpack 8 (pack (response_fields m))) ≡ some m
response-decodes m =
    ap to_response (unpack-pack (response_fields m))
    ∙ ground (arith, get_int-put_int m.version, get_int-put_int m.timestamp)

pub toy_handshake_wire-IsHandshakeWire : IsHandshakeWire toy_handshake_wire
toy_handshake_wire-IsHandshakeWire = record {
  challenge = record {
    payload = λ m. pack (challenge_fields m);
    marshals = λ m. refl;
    non_empty = λ m. refl;
    unmarshals = challenge-decodes;
    typed = λ m. first_field-pack m.message_type (m.nonce ∷ []);
  };
  handshake = record {
    payload = λ m. pack (handshake_fields m);
    marshals = λ m. refl;
    non_empty = λ m. refl;
    unmarshals = handshake-decodes;
    typed = λ m. ap some (take-length-append m.message_type _);
  };
  response = record {
    payload = λ m. pack (response_fields m);
    marshals = λ m. refl;
    non_empty = λ m. refl;
    unmarshals = response-decodes;
    typed = λ m. ap some (take-length-append m.message_type _);
  };
}
