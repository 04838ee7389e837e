-- ===== src/Handshake/Options.antt =====
-- HandshakeOptions, LocalIdentity, and the connection that a handshake ends in.
use go_send.Base.{
  ℕ, ◌^◌, Bool, true, false, not, ◌&&◌, [], Option, none, some, Bytes, Text, is_empty, ◌==◌,
  if◌then◌else◌,
}
use go_send.Base.Dict.{Dict}
use go_send.Connection.State.{ready, PeerConnection}

pub record LocalIdentity : Type 0 where
  pub device_id : Text
  pub device_name : Text
  pub ed25519_private_key : Bytes
  pub ed25519_public_key : Bytes

-- The options that the handshake reads; durations are nanoseconds. A decision of none is an error.
pub record HandshakeOptions : Type 0 where
  pub identity : LocalIdentity
  pub known_peer_keys : Dict Text
  pub known_peer_key_lookup : Option (Text → Text)
  pub on_key_change_decision : Option (Text → Text → Text → Option Bool)
  pub keep_alive_interval : ℕ
  pub keep_alive_timeout : ℕ
  pub rekey_interval : ℕ
  pub rekey_after_bytes : ℕ
  pub auto_respond_ping : Option Bool

abbrev pub default_keep_alive_interval : ℕ
default_keep_alive_interval = 60_000_000_000

abbrev pub default_keep_alive_timeout : ℕ
default_keep_alive_timeout = 15_000_000_000

-- 1 hour and 1 GiB.
abbrev pub default_rekey_interval : ℕ
default_rekey_interval = 3_600_000_000_000

abbrev pub default_rekey_after_bytes : ℕ
default_rekey_after_bytes = 2 ^ 30

abbrev pub or_default : ℕ → ℕ → ℕ
or_default n default = if n == 0 then default else n

-- withDefaults.
unfoldable pub with_defaults : HandshakeOptions → HandshakeOptions
with_defaults o = record o {
  keep_alive_interval = or_default o.keep_alive_interval default_keep_alive_interval;
  keep_alive_timeout = or_default o.keep_alive_timeout default_keep_alive_timeout;
  rekey_interval = or_default o.rekey_interval default_rekey_interval;
  rekey_after_bytes = or_default o.rekey_after_bytes default_rekey_after_bytes;
}

-- validateIdentity.
unfoldable pub validate_identity : HandshakeOptions → Bool
validate_identity o =
    not (is_empty o.identity.device_id)
    && not (is_empty o.identity.device_name)
    && not (is_empty o.identity.ed25519_private_key)
    && not (is_empty o.identity.ed25519_public_key)

-- newPeerConnection as Dial and handleInboundConn call it; the peer's name is not kept.
unfoldable pub new_peer_connection : ℕ → Bytes → HandshakeOptions → Text → Text → PeerConnection
new_peer_connection now session_key o peer_device_id peer_public_key = record {
  session_key = session_key;
  session_epoch = 0;
  previous_session_key = [];
  previous_session_epoch = 0;
  has_previous_session = false;
  local_device_id = o.identity.device_id;
  peer_device_id = peer_device_id;
  peer_public_key = peer_public_key;
  send_sequence = 0;
  last_seen_seq = 0;
  state = ready;
  waiting_pong = false;
  pong_deadline = 0;
  last_activity = now;
  last_rekey_at = now;
  bytes_since_rekey = 0;
  keep_alive_interval = or_default o.keep_alive_interval default_keep_alive_interval;
  keep_alive_timeout = or_default o.keep_alive_timeout default_keep_alive_timeout;
  auto_respond_ping = elim o.auto_respond_ping [ none ↦ true | some b ↦ b ];
  rekey_interval = or_default o.rekey_interval default_rekey_interval;
  rekey_after_bytes = or_default o.rekey_after_bytes default_rekey_after_bytes;
  inbound = [];
  closed = false;
  close_err = none;
  rekey_in_progress = false;
  has_callback = false;
  callbacks = 0;
  wire = [];
  link_up = true;
  draws = 0;
}
