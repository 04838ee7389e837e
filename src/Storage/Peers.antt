-- ===== src/Storage/Peers.antt =====
-- storage/peers.go: the peers and peer_settings tables, as maps from their primary key.
use go_send.Base.{
  Bool, false, not, ◌||◌, [], Option, none, some, Text, codes, if◌then◌else◌, is_empty, text_eq,
  trim_space,
}
use go_send.Base.Int.{ℤ, pos, is_zero}
use go_send.Base.Dict.{Dict, lookup, insert, delete}
use go_send.Storage.Messages.{
  required, invalid, not_found, constraint, Stored, done, refused, ltb_ℤ, is_some,
}

-- The CHECK values of status.
pub data PeerStatus : Type 0 where
  online offline unanswered blocked : PeerStatus

-- validatePeerStatus, with the value that it admits.
unfoldable pub parse_peer_status : Text → Option PeerStatus
parse_peer_status s =
    if text_eq s (codes "online")
    then some online
    else if text_eq s (codes "offline")
    then some offline
    else if text_eq s (codes "pending")
    then some unanswered
    else if text_eq s (codes "blocked")
    then some blocked
    else none

pub record Peer : Type 0 where
  pub device_id : Text
  pub device_name : Text
  pub ed25519_public_key : Text
  pub key_fingerprint : Text
  pub status : PeerStatus
  pub added_timestamp : ℤ
  pub last_seen_timestamp : Option ℤ
  pub last_known_ip : Option Text
  pub last_known_port : Option ℤ

-- `is_trusted` is the trust level.
pub record PeerSettings : Type 0 where
  pub auto_accept_files : Bool
  pub max_file_size : ℤ
  pub download_directory : Text
  pub custom_name : Text
  pub is_trusted : Bool
  pub notifications_muted : Bool
  pub verified : Bool

pub record PeerTables : Type 0 where
  pub peers : Dict Peer
  pub settings : Dict PeerSettings

-- AddPeer with a status that is known to be valid; `now` is nowUnixMilli.
unfoldable pub add_peer : ℤ → Peer → PeerTables → Stored PeerTables
add_peer now p t =
    if is_empty p.device_id
      || is_empty p.device_name
      || is_empty p.ed25519_public_key
      || is_empty p.key_fingerprint
    then refused required
    else if is_some (lookup p.device_id t.peers)
    then refused constraint
    else done (record t {
      peers =
          insert p.device_id
            (record p {
              added_timestamp = if is_zero p.added_timestamp then now else p.added_timestamp;
            })
            t.peers;
    })

-- `UPDATE peers SET ... WHERE device_id = ?`: no row is ErrNotFound.
unfoldable pub update_peer : Text → (Peer → Peer) → PeerTables → Stored PeerTables
update_peer id f t = elim (lookup id t.peers) [
  | none ↦ refused not_found
  | some p ↦ done (record t { peers = insert id (f p) t.peers })
]

-- `CASE WHEN ? > 0 THEN ? ELSE last_seen_timestamp END`.
abbrev pub seen_at : ℤ → Peer → Option ℤ
seen_at at p = if ltb_ℤ (pos 0) at then some at else p.last_seen_timestamp

-- UpdatePeerStatus with a status that is known to be valid.
unfoldable pub update_peer_status : Text → PeerStatus → ℤ → PeerTables → Stored PeerTables
unfolding update_peer
update_peer_status id status at t =
    if is_empty id
    then refused required
    else update_peer id (λ p. record p { status = status; last_seen_timestamp = seen_at at p }) t

-- RemovePeer. `has_messages` tells whether a row of the messages table refers to the peer, which
-- the REFERENCES constraint does not let go; the settings go with the peer (ON DELETE CASCADE).
unfoldable pub remove_peer : (Text → Bool) → Text → PeerTables → Stored PeerTables
remove_peer has_messages id t =
    if is_empty id
    then refused required
    else if not (is_some (lookup id t.peers))
    then refused not_found
    else if has_messages id
    then refused constraint
    else done (record { peers = delete id t.peers; settings = delete id t.settings })

-- UpdatePeerEndpoint.
unfoldable pub update_peer_endpoint : Text → Text → ℤ → ℤ → PeerTables → Stored PeerTables
unfolding update_peer
update_peer_endpoint id ip port at t =
    if is_empty id || is_empty (trim_space ip)
    then refused required
    else if not (ltb_ℤ (pos 0) port)
    then refused invalid
    else update_peer id
        (λ p. record p {
          last_known_ip = some ip;
          last_known_port = some port;
          last_seen_timestamp = seen_at at p;
        })
        t

-- UpdatePeerDeviceName.
unfoldable pub update_peer_device_name : Text → Text → PeerTables → Stored PeerTables
unfolding update_peer
update_peer_device_name id name t =
    if is_empty id || is_empty (trim_space name)
    then refused required
    else update_peer id (λ p. record p { device_name = name }) t

-- `UPDATE peer_settings SET verified = 0 WHERE peer_device_id = ?`.
unfoldable pub clear_verified : Text → PeerTables → PeerTables
clear_verified id t = elim (lookup id t.settings) [
  | none ↦ t
  | some s ↦ record t { settings = insert id (record s { verified = false }) t.settings }
]

-- UpdatePeerIdentity.
unfoldable pub update_peer_identity : Text → Text → Text → PeerTables → Stored PeerTables
unfolding update_peer clear_verified
update_peer_identity id key fingerprint t =
    if is_empty id || is_empty key || is_empty fingerprint
    then refused required
    else elim (update_peer id
        (λ p. record p { ed25519_public_key = key; key_fingerprint = fingerprint }) t) [
          | done t' ↦ done (clear_verified id t')
          | refused e ↦ refused e
        ]

-- The defaults of the peer_settings table.
abbrev pub default_settings : PeerSettings
default_settings = record {
  auto_accept_files = false;
  max_file_size = pos 0;
  download_directory = [];
  custom_name = [];
  is_trusted = false;
  notifications_muted = false;
  verified = false;
}

-- EnsurePeerSettingsExist.
unfoldable pub ensure_peer_settings_exist : Text → PeerTables → Stored PeerTables
ensure_peer_settings_exist id t =
    if is_empty id
    then refused required
    else if is_some (lookup id t.settings)
    then done t
    else if not (is_some (lookup id t.peers))
    then refused constraint
    else done (record t { settings = insert id default_settings t.settings })

-- GetPeer and GetPeerSettings.
unfoldable pub get_peer : Text → PeerTables → Stored Peer
get_peer id t = elim (lookup id t.peers) [ none ↦ refused not_found | some p ↦ done p ]

unfoldable pub get_peer_settings : Text → PeerTables → Stored PeerSettings
get_peer_settings id t =
    if is_empty id
    then refused required
    else elim (lookup id t.settings) [ none ↦ refused not_found | some s ↦ done s ]

-- UpdatePeerSettings with a trust level that is known to be valid.
unfoldable pub update_peer_settings : Text → PeerSettings → PeerTables → Stored PeerTables
unfolding ensure_peer_settings_exist
update_peer_settings id s t =
    if is_empty id
    then refused required
    else if ltb_ℤ s.max_file_size (pos 0)
    then refused invalid
    else elim (ensure_peer_settings_exist id t) [
      | refused e ↦ refused e
      | done t' ↦ done (record t' { settings = insert id s t'.settings })
    ]

-- ResetPeerVerified.
unfoldable pub reset_peer_verified : Text → PeerTables → Stored PeerTables
unfolding ensure_peer_settings_exist clear_verified
reset_peer_verified id t = elim (ensure_peer_settings_exist id t) [
  | refused e ↦ refused e
  | done t' ↦ done (clear_verified id t')
]
