-- ===== src/Examples/Pinnings.antt =====
-- The peers table at concrete inputs.
use go_send.Base.{◌≡◌, refl, true, [], ◌∷◌, none, codes, text_eq}
use go_send.Base.Int.{pos}
use go_send.Base.Dict.{lookup, insert}
use go_send.Storage.Messages.{done}
use go_send.Storage.Peers.{
  online, Peer, default_settings, PeerTables, update_peer, clear_verified, update_peer_identity,
}
use go_send.Storage.Pinned.{IsRepinned, update_peer_identity-IsRepinned}

abbrev known_alice : Peer
known_alice = record {
  device_id = codes "alice";
  device_name = codes "Alice";
  ed25519_public_key = codes "k1";
  key_fingerprint = codes "f1";
  status = online;
  added_timestamp = pos 1;
  last_seen_timestamp = none;
  last_known_ip = none;
  last_known_port = none;
}

-- Alice was verified under her old key.
abbrev with_alice : PeerTables
with_alice = record {
  peers = (codes "alice", known_alice) ∷ [];
  settings = (codes "alice", record default_settings { verified = true }) ∷ [];
}

abbrev with_new_key : PeerTables
with_new_key = record {
  peers =
      (
        codes "alice",
        record known_alice { ed25519_public_key = codes "k2"; key_fingerprint = codes "f2" },
      )
      ∷ [];
  settings = (codes "alice", default_settings) ∷ [];
}

alice_repinned :
    update_peer_identity (codes "alice") (codes "k2") (codes "f2") with_alice ≡ done with_new_key
unfolding update_peer_identity update_peer clear_verified lookup insert text_eq
alice_repinned = refl

update_peer_identity-IsRepinned_example :
    IsRepinned (codes "alice") (codes "k2") (codes "f2") with_alice with_new_key
update_peer_identity-IsRepinned_example =
    update_peer_identity-IsRepinned (codes "alice") (codes "k2") (codes "f2") with_alice
      with_new_key alice_repinned
